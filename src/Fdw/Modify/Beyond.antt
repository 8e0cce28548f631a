-- ===== src/Fdw/Modify/Beyond.antt =====
-- A key that stands behind the columns of the Oracle table.
use oracle_fdw.Base.{
  ◌≡◌, refl, ap, ◌∙◌, Option, none, some, append-nil, true, false, List, [], ◌∷◌, ◌++◌, Bytes,
  filter, All, length, arith,
}
use oracle_fdw.Result.{Result, ok, err, fault, ◌>>=◌}
use oracle_fdw.Text.{codes}
use oracle_fdw.Fdw.Modify.{
  Column, Table, Building, check_column, Attribute, column_options, describe, get_column_data,
  key_options, key_targets, at_least_one, add_update_targets,
}
use oracle_fdw.Fdw.Modify.Plan.{delete, Statement, has_trigger, mark_columns, plan_foreign_modify}
use oracle_fdw.Fdw.Modify.Loops.{IsBindable}
use oracle_fdw.Fdw.Modify.Statements.{plan_foreign_modify-delete}

-- A live attribute without options.
abbrev pub IsPlainAttribute : Attribute → Type 0
IsPlainAttribute att = (att.attisdropped ≡ false) × (att.options ≡ [])

key_targets-plain :
    (front back : List Attribute)
    → All IsPlainAttribute front
    → key_targets (front ++ back) ≡ key_targets back
unfolding key_targets key_options
key_targets-plain [] back h = refl
key_targets-plain (att ∷ front) back ((d, o), hs) =
    rw o (rw (key_targets-plain front back hs) (again (key_targets back)))
  where
    again : (m : Result (List Bytes)) → (m >>= λ rest. ok rest) ≡ m
    again (ok rest) = refl
    again (err e) = refl
    again (fault e) = refl

-- A column of the Oracle table before it is described: no key, and not used.
abbrev pub IsPlainColumn : Column → Type 0
IsPlainColumn col = (col.pkey ≡ false) × (col.used ≡ false)

get_column_data-plain :
    (front back : List Attribute) (cols : List Column)
    → All IsPlainAttribute front
    → length front ≡ length cols
    → All IsPlainColumn cols
    → (final : List Column) × (get_column_data (front ++ back) cols ≡ ok final)
      × All IsPlainColumn final
unfolding get_column_data column_options
get_column_data-plain [] [] [] h l p = ([], refl, tt)
get_column_data-plain [] (att ∷ back) [] h l p = ([], refl, tt)
get_column_data-plain [] back (col ∷ cols) h l p = absurd (omega (arith, l))
get_column_data-plain (att ∷ front) back [] h l p = absurd (omega (arith, l))
get_column_data-plain (att ∷ front) back (col ∷ cols) ((d, o), hs) l (p, ps) =
    let (final, e, f) = get_column_data-plain front back cols hs (omega (arith, l)) ps in
    (describe att col ∷ final, rw d (rw o (rw e refl)), (p, f))

plain_no_key : (cols : List Column) → All IsPlainColumn cols → filter (λ col. col.pkey) cols ≡ []
plain_no_key [] h = refl
plain_no_key (col ∷ cols) ((p, u), hs) = rw p (plain_no_key cols hs)

plain_unused : (cols : List Column) → All IsPlainColumn cols → filter (λ col. col.used) cols ≡ []
plain_unused [] h = refl
plain_unused (col ∷ cols) ((p, u), hs) = rw u (plain_unused cols hs)

-- Nothing has to be bound or converted for plain columns, and there is no parameter.
plain-IsBindable :
    (cols : List Column)
    → All IsPlainColumn cols
    → All (λ col. col.pkey ≡ true → IsBindable col) cols
plain-IsBindable [] h = tt
plain-IsBindable (col ∷ cols) ((p, u), hs) = ((λ k. absurd (cc k)), plain-IsBindable cols hs)

plain_convertible :
    (cols : List Column)
    → All IsPlainColumn cols
    → All (λ col. col.used ≡ true → check_column col ≡ ok tt) cols
plain_convertible [] h = tt
plain_convertible (col ∷ cols) ((p, u), hs) = ((λ k. absurd (cc k)), plain_convertible cols hs)

-- The text of a plan that succeeds.
abbrev pub query_of : Result (Building × Table) → Option Bytes
query_of (ok (b, table)) = some b.sql
query_of (err e) = none
query_of (fault e) = none

-- As many attributes as the Oracle table has columns, none of them with options, and others behind them:
-- those alone decide whether PostgreSQL allows the statement. But for a DELETE without ON CONFLICT, triggers
-- and RETURNING, oraclePlanForeignModify succeeds with the columns that getColumnData describes, which are no
-- keys and not used before, and its query has no condition, so that every row goes.
pub plan_foreign_modify-key_beyond :
    (s : Statement) (name : Bytes) (front back : List Attribute) (cols : List Column)
    → All IsPlainAttribute front
    → length front ≡ length cols
    → All IsPlainColumn cols
    → s.operation ≡ delete
    → s.has_on_conflict ≡ false
    → has_trigger s.triggers delete ≡ false
    → s.returning ≡ none
    → (add_update_targets (front ++ back) ≡ add_update_targets back)
      × ((described : List Column) × (get_column_data (front ++ back) cols ≡ ok described)
          × (query_of (plan_foreign_modify s (record { name = name; cols = described }))
              ≡ some (codes "DELETE FROM " ++ name)))
unfolding add_update_targets mark_columns
plan_foreign_modify-key_beyond s name front back cols h l p d c t r =
    let (described, e, f) = get_column_data-plain front back cols h l p in
    let table : Table = record { name = name; cols = described } in
    let planned =
      plan_foreign_modify-delete s table described d c (rw t (rw r refl))
        (plain-IsBindable described f) (plain_convertible described f) in
    (
      ap (λ m. m >>= at_least_one) (key_targets-plain front back h),
      (
        described,
        e,
        ap query_of planned
            ∙ rw (plain_no_key described f)
                (rw (plain_unused described f) (rw (append-nil name) (rw (append-nil name) refl))),
      ),
    )
