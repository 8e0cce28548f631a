-- ===== src/Fdw/Modify/Conditions.antt =====
-- Whether an UPDATE or a DELETE that PostgreSQL allows has a condition on a key column.
use oracle_fdw.Base.{
  ℕ, suc, ◌≤◌, ◌≡◌, refl, Bool, true, false, not, List, [], ◌∷◌, ◌++◌, Bytes, filter, All, length,
  Bool-cases, inl, inr, arith,
}
use mathlib.Core.Path.{subst}
use oracle_fdw.Result.{Result, ok, err, fault, ◌>>=◌, bind-ok}
use oracle_fdw.Text.{codes}
use oracle_fdw.Fdw.Modify.{
  Column, Table, Building, Attribute, column_options, describe, get_column_data, key_targets,
  at_least_one, add_update_targets,
}
use oracle_fdw.Fdw.Modify.Clauses.{none_in}
use oracle_fdw.Fdw.Modify.Plan.{Statement, target_attrs, plan_foreign_modify}
use oracle_fdw.Fdw.Modify.Planned.{changes_rows, IsCommand, plan_foreign_modify-IsPlanned}
use oracle_fdw.Fdw.Modify.Statements.{where_text, returning_text}
use oracle_fdw.Fdw.Modify.Keys.{
  column_options-key_options, live, IsCatalog, has_key_column, key_targets-round, key_options-none,
}

-- A dropped attribute is no key.
dropped_no_key :
    (att : Attribute) (atts : List Attribute) (k : Bytes) (ks : List Bytes)
    → att.attisdropped ≡ true
    → IsCatalog att
    → key_targets (att ∷ atts) ≡ ok (k ∷ ks)
    → key_targets atts ≡ ok (k ∷ ks)
dropped_no_key att atts k ks d c h = elim (key_targets-round att atts k ks h) [
  | inl key ↦ absurd (cc (key_options-none att key.0 key.1 (c d) key.2))
  | inr rest ↦ rest
]

no_live_no_key :
    (atts : List Attribute) (k : Bytes) (ks : List Bytes)
    → live atts ≤ 0
    → All IsCatalog atts
    → key_targets atts ≡ ok (k ∷ ks)
    → true ≡ false
unfolding key_targets
no_live_no_key [] k ks l c h = absurd (cc h)
no_live_no_key (att ∷ atts) k ks l (c, cs) h = elim (Bool-cases att.attisdropped) [
  | inl d ↦ no_live_no_key atts k ks (rw d at l) cs (dropped_no_key att atts k ks d c h)
  | inr d ↦ let l1 : suc (live atts) ≤ 0 = rw d at l in absurd (omega (arith, l1))
]

key_column-cons :
    (col : Column) (cols : List Column)
    → has_key_column cols ≡ true
    → has_key_column (col ∷ cols) ≡ true
key_column-cons col cols h = elim (Bool-cases col.pkey) [ inl e ↦ rw e refl | inr e ↦ rw e h ]

get_column_data-round :
    (att : Attribute) (atts : List Attribute) (col : Column) (cols final : List Column)
    → att.attisdropped ≡ false
    → get_column_data (att ∷ atts) (col ∷ cols) ≡ ok final
    → (c : Column) × (cs : List Column) × (column_options att.options (describe att col) ≡ ok c)
      × (get_column_data atts cols ≡ ok cs)
      × (c ∷ cs ≡ final)
unfolding get_column_data
get_column_data-round att atts col cols final d h =
    let (c, e, l) =
      bind-ok (column_options att.options (describe att col))
        (λ c. get_column_data atts cols >>= λ cs. ok (c ∷ cs)) final (rw d at h) in
    let (cs, f, m) = bind-ok (get_column_data atts cols) (λ cs. ok (c ∷ cs)) final l in
    (c, cs, e, f, cc m)

key_targets-get_column_data :
    (atts : List Attribute) (cols final : List Column) (k : Bytes) (ks : List Bytes)
    → All IsCatalog atts
    → live atts ≤ length cols
    → key_targets atts ≡ ok (k ∷ ks)
    → get_column_data atts cols ≡ ok final
    → has_key_column final ≡ true
unfolding get_column_data
key_targets-get_column_data [] cols final k ks c l h g =
    absurd (cc (no_live_no_key [] k ks (omega arith) tt h))
key_targets-get_column_data (att ∷ atts) [] final k ks c l h g =
    absurd (cc (no_live_no_key (att ∷ atts) k ks l c h))
key_targets-get_column_data (att ∷ atts) (col ∷ cols) final k ks (c, cs) l h g =
    elim (Bool-cases att.attisdropped) [
      | inl d ↦
          key_targets-get_column_data atts (col ∷ cols) final k ks cs (rw d at l)
            (dropped_no_key att atts k ks d c h) (rw d at g)
      | inr d ↦
          let l1 : suc (live atts) ≤ suc (length cols) = rw d at l in
          let (x, xs, e, f, same) = get_column_data-round att atts col cols final d g in
          subst (λ r. has_key_column r ≡ true) same
            (elim (key_targets-round att atts k ks h) [
              | inl key ↦
                  let set =
                    column_options-key_options att.options (describe att col) x key.0 key.1 key.2
                      e in
                  rw set refl
              | inr rest ↦
                  key_column-cons x xs
                    (key_targets-get_column_data atts cols xs k ks cs (omega (arith, l1)) rest f)
            ])
    ]

at_least_one-ok :
    (m : Result (List Bytes)) (names : List Bytes)
    → m >>= at_least_one ≡ ok names
    → (k : Bytes) × (ks : List Bytes) × (m ≡ ok (k ∷ ks))
at_least_one-ok (ok []) names h = absurd (cc h)
at_least_one-ok (ok (k ∷ ks)) names h = (k, ks, refl)
at_least_one-ok (err e) names h = absurd (cc h)
at_least_one-ok (fault e) names h = absurd (cc h)

where_text-key_column :
    (cols : List Column)
    → has_key_column cols ≡ true
    → (rest : Bytes) × (where_text cols ≡ codes " WHERE " ++ rest)
where_text-key_column cols h = of_keys (filter (λ col. col.pkey) cols) refl h
  where
    of_keys :
        (keys : List Column)
        → filter (λ col. col.pkey) cols ≡ keys
        → not (none_in (filter (λ col. col.pkey) cols)) ≡ true
        → (rest : Bytes) × (where_text cols ≡ codes " WHERE " ++ rest)
    of_keys [] e k = absurd (cc (rw e at k))
    of_keys (col ∷ keys) e k = rw e (_, refl)

add_update_targets-where_text :
    (atts : List Attribute) (cols final : List Column) (names : List Bytes)
    → All IsCatalog atts
    → live atts ≤ length cols
    → add_update_targets atts ≡ ok names
    → get_column_data atts cols ≡ ok final
    → (rest : Bytes) × (where_text final ≡ codes " WHERE " ++ rest)
unfolding add_update_targets
add_update_targets-where_text atts cols final names c l h g =
    let (k, ks, e) = at_least_one-ok (key_targets atts) names h in
    where_text-key_column final (key_targets-get_column_data atts cols final k ks c l e g)

-- PostgreSQL allows an UPDATE or a DELETE, since some attribute is a key, the dropped attributes have
-- no options, and the other attributes are not more than the columns of the Oracle table. If
-- oraclePlanForeignModify then succeeds with the columns that getColumnData describes, its query is the text
-- that buildUpdateQuery makes for the statement, or DELETE FROM and the name, then the conditions on the key
-- columns, which begin with WHERE, and then the RETURNING clause.
pub plan_foreign_modify-where :
    (s : Statement) (name : Bytes) (atts : List Attribute) (cols described : List Column)
    (names : List Bytes) (b : Building) (final : Table)
    → changes_rows s.operation ≡ true
    → All IsCatalog atts
    → live atts ≤ length cols
    → add_update_targets atts ≡ ok names
    → get_column_data atts cols ≡ ok described
    → plan_foreign_modify s (record { name = name; cols = described }) ≡ ok (b, final)
    → (attnums : List ℕ) × (trigger : Bool) × (command rest : Bytes) × (target_attrs s
        ≡ ok (attnums, trigger))
      × IsCommand s.operation final attnums command
      × (where_text described ≡ codes " WHERE " ++ rest)
      × (b.sql ≡ (command ++ where_text described) ++ returning_text final.cols)
plan_foreign_modify-where s name atts cols described names b final k c l h g p =
    let (rest, e) = add_update_targets-where_text atts cols described names c l h g in
    let (attnums, trigger, command, f, is_command, text) =
      plan_foreign_modify-IsPlanned s (record { name = name; cols = described }) (b, final) k p in
    (attnums, trigger, command, rest, f, is_command, e, text)
