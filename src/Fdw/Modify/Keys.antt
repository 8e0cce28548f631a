-- ===== src/Fdw/Modify/Keys.antt =====
-- The key columns of an UPDATE or a DELETE: oracleAddForeignUpdateTargets looks for them among the
-- attributes of the foreign table, and the condition of the statement is made from the columns of
-- the Oracle table.
use oracle_fdw.Base.{
  ℕ, suc, ◌≡◌, ◌⊎◌, refl, ap, ◌∙◌, sym, Bool, true, false, ◌||◌, not, List, [], ◌∷◌, ◌++◌, Bytes,
  map, filter, Bool-cases, inl, inr, if◌then◌else◌,
}
use oracle_fdw.Result.{Result, ok, ◌>>=◌, bind-ok}
use oracle_fdw.Text.{codes}
use oracle_fdw.Jni.Types.{equal}
use oracle_fdw.Fdw.Options.Values.{get_bool_val}
use oracle_fdw.Fdw.Modify.{
  Column, Attribute, column_options, mark_column, flag_option, key_options, key_targets,
}
use oracle_fdw.Fdw.Modify.Clauses.{none_in}

or_true : (a b : Bool) → a ≡ true → a || b ≡ true
or_true a b h = rw h refl

or_true_right : (a b : Bool) → b ≡ true → a || b ≡ true
or_true_right true b h = refl
or_true_right false b h = h

-- One round of the loop over the options.
column_options-round :
    (defname arg : Bytes) (options : List (Bytes × Bytes)) (col c : Column)
    → column_options ((defname, arg) ∷ options) col ≡ ok c
    → (key : Bool) × (strip : Bool) × (flag_option (codes "key") defname arg ≡ ok key)
      × (column_options options (mark_column key strip col) ≡ ok c)
unfolding column_options
column_options-round defname arg options col c h =
    let after : Bool → Bool → Result Column =
      λ key strip. column_options options (mark_column key strip col) in
    let strip_of : Bool → Result Bool =
      λ key. if key then ok false else flag_option (codes "strip_zeros") defname arg in
    let (key, e, k) =
      bind-ok (flag_option (codes "key") defname arg) (λ b. strip_of b >>= after b) c h in
    let (strip, f, l) = bind-ok (strip_of key) (after key) c k in (key, strip, e, l)

-- A column stays a key column.
column_options-pkey :
    (options : List (Bytes × Bytes)) (col c : Column)
    → column_options options col ≡ ok c
    → col.pkey ≡ true
    → c.pkey ≡ true
unfolding column_options
column_options-pkey [] col c h p = let same : col ≡ c = cc h in ap (λ x. x.pkey) (sym same) ∙ p
column_options-pkey ((defname, arg) ∷ options) col c h p =
    let (key, strip, e, l) = column_options-round defname arg options col c h in
    column_options-pkey options (mark_column key strip col) c l (or_true col.pkey key p)

key_cases :
    (defname arg : Bytes) (options : List (Bytes × Bytes)) (key : Bool) (js : List Bytes)
    (k : Bytes) (ks : List Bytes)
    → get_bool_val defname arg ≡ ok key
    → key_options options ≡ ok js
    → ok (if key then defname ∷ js else js) ≡ ok (k ∷ ks)
    → (get_bool_val defname arg ≡ ok true)
      ⊎ ((j : Bytes) × (rest : List Bytes) × (key_options options ≡ ok (j ∷ rest)))
key_cases defname arg options true js k ks g f m = inl g
key_cases defname arg options false js k ks g f m = inr (k, ks, f ∙ m)

-- A key option among them: either the first one is it and set, or it is among the others.
key_options-round :
    (defname arg : Bytes) (options : List (Bytes × Bytes)) (k : Bytes) (ks : List Bytes)
    → key_options ((defname, arg) ∷ options) ≡ ok (k ∷ ks)
    → (flag_option (codes "key") defname arg ≡ ok true)
      ⊎ ((j : Bytes) × (js : List Bytes) × (key_options options ≡ ok (j ∷ js)))
unfolding key_options flag_option
key_options-round defname arg options k ks h = elim (Bool-cases (equal defname (codes "key"))) [
  | inl e ↦
      let add : Bool → List Bytes → List Bytes = λ key js. if key then defname ∷ js else js in
      let (key, g, l) =
        bind-ok (get_bool_val defname arg) (λ b. key_options options >>= λ js. ok (add b js))
          (k ∷ ks) (rw e at h) in
      let (js, f, m) = bind-ok (key_options options) (λ l. ok (add key l)) (k ∷ ks) l in
      rw e (key_cases defname arg options key js k ks g f m)
  | inr e ↦ elim (Bool-cases (equal defname (codes "strip_zeros"))) [
    | inl t ↦ inr (k, ks, rw t at (rw e at h))
    | inr t ↦ absurd (cc (rw t at (rw e at h)))
  ]
]

-- An option that makes a column a key for the target list makes it one for the condition.
pub column_options-key_options :
    (options : List (Bytes × Bytes)) (col c : Column) (k : Bytes) (ks : List Bytes)
    → key_options options ≡ ok (k ∷ ks)
    → column_options options col ≡ ok c
    → c.pkey ≡ true
unfolding key_options
column_options-key_options [] col c k ks h g = absurd (cc h)
column_options-key_options ((defname, arg) ∷ options) col c k ks h g =
    let (key, strip, e, l) = column_options-round defname arg options col c g in
    elim (key_options-round defname arg options k ks h) [
      | inl t ↦
          let set : key ≡ true = cc (e, t) in
          column_options-pkey options (mark_column key strip col) c l
            (or_true_right col.pkey key set)
      | inr more ↦
          column_options-key_options options (mark_column key strip col) c more.0 more.1 more.2 l
    ]

-- The attributes that are not dropped.
abbrev pub live : List Attribute → ℕ
live [] = 0
live (att ∷ atts) = if att.attisdropped then live atts else suc (live atts)

-- A dropped column has no options.
abbrev pub IsCatalog : Attribute → Type 0
IsCatalog att = att.attisdropped ≡ true → att.options ≡ []

abbrev pub has_key_column : List Column → Bool
has_key_column cols = not (none_in (filter (λ col. col.pkey) cols))

pub key_targets-round :
    (att : Attribute) (atts : List Attribute) (k : Bytes) (ks : List Bytes)
    → key_targets (att ∷ atts) ≡ ok (k ∷ ks)
    → ((j : Bytes) × (js : List Bytes) × (key_options att.options ≡ ok (j ∷ js)))
      ⊎ (key_targets atts ≡ ok (k ∷ ks))
unfolding key_targets
key_targets-round att atts k ks h =
    let named : List Bytes → List Bytes = map (λ j. att.attname) in
    let (js, e, l) =
      bind-ok (key_options att.options) (λ js. key_targets atts >>= λ rest. ok (named js ++ rest))
        (k ∷ ks) h in
    let (rest, f, m) = bind-ok (key_targets atts) (λ rest. ok (named js ++ rest)) (k ∷ ks) l in
    cases js e rest f m
  where
    cases :
        (js : List Bytes)
        → key_options att.options ≡ ok js
        → (rest : List Bytes) → key_targets atts ≡ ok rest
        → ok (map (λ j. att.attname) js ++ rest) ≡ ok (k ∷ ks)
        → ((j : Bytes) × (js : List Bytes) × (key_options att.options ≡ ok (j ∷ js)))
          ⊎ (key_targets atts ≡ ok (k ∷ ks))
    cases [] e rest f m = inr (f ∙ m)
    cases (j ∷ js) e rest f m = inl (j, js, e)

pub key_options-none :
    (att : Attribute) (j : Bytes) (js : List Bytes)
    → att.options ≡ []
    → key_options att.options ≡ ok (j ∷ js)
    → true ≡ false
unfolding key_options
key_options-none att j js h e = absurd (cc (rw h at e))
