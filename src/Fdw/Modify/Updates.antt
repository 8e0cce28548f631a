-- ===== src/Fdw/Modify/Updates.antt =====
-- The text of an UPDATE, as a description that does not run the loops.
use oracle_fdw.Base.{
  ℕ, suc, ◌<◌, ◌≡◌, refl, ◌∙◌, Bool, true, false, List, [], ◌∷◌, ◌++◌, Bytes, map, filter, All,
  append_assoc, append-nil, Bool-cases, inl, inr, if◌then◌else◌, ltb, ltb_of_lt, arith,
}
use oracle_fdw.Result.{Result, ok, err, fault, ◌>>=◌}
use oracle_fdw.Text.{codes}
use oracle_fdw.Fdw.Columns.{as_type, add_param}
use oracle_fdw.Fdw.Modify.{Column, Table, Building, check_column, key_name, each, param_name}
use oracle_fdw.Fdw.Modify.Plan.{
  has_no_type, advance, update_column, update_columns, build_update_query, update, Statement,
  target_attrs, mark_columns, build_command, nothing_built, plan_foreign_modify,
}
use oracle_fdw.Fdw.Modify.Clauses.{pieces, none_in, IsLoop, each_lem}
use oracle_fdw.Fdw.Modify.Loops.{IsBindable, IsInsertable, key_loop, bound}
use oracle_fdw.Fdw.Modify.Statements.{
  bound_params, where_text, returning_text, output_params, append_returning_clause_lem,
}

abbrev pub attnum_of : Column → ℕ
attnum_of col = col.pgattnum

-- The chosen columns behind a column have larger numbers.
abbrev pub IsAscending : (Column → Bool) → List Column → Type 0
IsAscending chosen [] = Unit {0}
IsAscending chosen (col ∷ cols) =
    All (λ c. chosen c ≡ true → col.pgattnum < c.pgattnum) cols × IsAscending chosen cols

ltb_self : (n : ℕ) → ltb n n ≡ false
ltb_self n = ground arith

>>=-cong :
    {A B : Type 0} (m : Result A) {f g : A → Result B} → ((a : A) → f a ≡ g a) → m >>= f ≡ m >>= g
>>=-cong (ok a) h = h a
>>=-cong (err e) h = refl
>>=-cong (fault e) h = refl

-- What the loop over targetAttrs does at each column, if these are the numbers of the chosen columns.
module _ (chosen : Column → Bool) where
  update_chosen : ℕ → Column → Building → Result Building
  update_chosen i col b = if chosen col then update_column col.pgattnum i col b else ok b

  -- The numbers of columns behind `col` lead past it.
  skip_column :
      (i : ℕ) (col : Column) (cols rest : List Column) (b : Building)
      → All (λ c. chosen c ≡ true → col.pgattnum < c.pgattnum) rest
      → update_columns (map attnum_of (filter chosen rest)) i (col ∷ cols) b
        ≡ update_columns (map attnum_of (filter chosen rest)) (suc i) cols b
  unfolding update_columns advance
  skip_column i col cols [] b h = refl
  skip_column i col cols (c ∷ rest) b (h, hs) = elim (Bool-cases (chosen c)) [
    | inl e ↦ rw e (rw (ltb_of_lt col.pgattnum c.pgattnum (h e)) refl)
    | inr e ↦ rw e (skip_column i col cols rest b hs)
  ]

  update_columns-each :
      (i : ℕ) (cols : List Column) (b : Building)
      → IsAscending chosen cols
      → update_columns (map attnum_of (filter chosen cols)) i cols b ≡ each update_chosen i cols b
  unfolding update_chosen update_columns each advance
  update_columns-each i [] b h = refl
  update_columns-each i (col ∷ cols) b (h, hs) = elim (Bool-cases (chosen col)) [
    | inl e ↦ rw e (
        rw (ltb_self col.pgattnum) (
          >>=-cong (update_column col.pgattnum i col b)
            (λ b1. skip_column i col cols cols b1 h ∙ update_columns-each (suc i) cols b1 hs)))
    | inr e ↦ rw e (skip_column i col cols cols b h ∙ update_columns-each (suc i) cols b hs)
  ]

-- A column that PostgreSQL has, whose values can be converted and bound.
abbrev pub IsUpdatable : Column → Type 0
IsUpdatable col = (has_no_type col.pgtype ≡ false) × IsInsertable col

abbrev assignment : Column → Bytes
assignment col = col.name ++ (codes " = " ++ as_type (param_name col.pgattnum) col.pgtype)

unfoldable update_loop : (chosen : Column → Bool) → IsLoop (update_chosen chosen)
unfolding update_chosen update_column add_param
update_loop chosen = record {
  selected = chosen;
  IsGood = IsUpdatable;
  opening = [];
  between = codes ", ";
  piece = assignment;
  param = bound param_name;
  skips = λ i col b e. rw e refl;
  adds = λ i col b e g. rw e (
      rw (g.0) (
        rw (g.1.convertible)
          (rw (g.1.bindable.bind_type_ok) (rw (append_assoc b.sql _ (assignment col)) refl))));
}

-- The chosen columns with their values.
abbrev pub update_text : Bytes → (Column → Bool) → List Column → Bytes
update_text name chosen cols =
    (codes "UPDATE " ++ (name ++ codes " SET "))
    ++ pieces true [] (codes ", ") (map assignment (filter chosen cols))

build_update_query_lem :
    (chosen : Column → Bool) (table : Table)
    → IsAscending chosen table.cols
    → All (λ col. chosen col ≡ true → IsUpdatable col) table.cols
    → none_in (filter chosen table.cols) ≡ false
    → build_update_query table (map attnum_of (filter chosen table.cols)) nothing_built
      ≡ ok (record {
        sql = update_text table.name chosen table.cols;
        firstcol = false;
        params = bound_params chosen param_name table.cols [];
      })
unfolding build_update_query update_loop
build_update_query_lem chosen table a g n =
    rw (update_columns-each chosen 0 table.cols _ a)
      (rw (each_lem (update_loop chosen) 0 table.cols _ g) (rw n refl))

-- An UPDATE without ON CONFLICT whose target columns are the chosen ones, at least one, in the order of
-- their numbers, if each of them has a type and can be converted and bound, each key column can be bound,
-- and the columns for RETURNING can be marked and converted: oraclePlanForeignModify succeeds, and the query
-- assigns to the chosen columns, under the conditions on the key columns, and has the RETURNING clause for
-- the marked columns, with a parameter for each.
pub plan_foreign_modify-update :
    (s : Statement) (table : Table) (cols : List Column) (chosen : Column → Bool) (trigger : Bool)
    → s.operation ≡ update
    → s.has_on_conflict ≡ false
    → target_attrs s ≡ ok (map attnum_of (filter chosen cols), trigger)
    → mark_columns trigger s.returning table.cols ≡ ok cols
    → IsAscending chosen cols
    → none_in (filter chosen cols) ≡ false
    → All (λ col. chosen col ≡ true → IsUpdatable col) cols
    → All (λ col. col.pkey ≡ true → IsBindable col) cols
    → All (λ col. col.used ≡ true → check_column col ≡ ok tt) cols
    → plan_foreign_modify s table
      ≡ ok (
        record {
          sql = (update_text table.name chosen cols ++ where_text cols) ++ returning_text cols;
          firstcol = none_in (filter (λ col. col.used) cols);
          params = output_params cols (
              bound_params
                (λ col. col.pkey)
                key_name
                cols
                (bound_params chosen param_name cols []));
        },
        record table { cols = cols },
      )
unfolding plan_foreign_modify build_command key_loop target_attrs
plan_foreign_modify-update s table cols chosen trigger d c t m a n g k u =
    let marked : Table = record table { cols = cols } in
    rw c (
      rw t (
        rw m (
          rw d (
            rw (build_update_query_lem chosen marked a g n) (
              rw (append-nil (update_text table.name chosen cols)) (
                rw (each_lem key_loop 0 cols _ k)
                  (rw (append_returning_clause_lem marked _ u) refl)))))))
