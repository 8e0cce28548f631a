-- ===== src/Fdw/Modify/Planned.antt =====
-- What a successful plan consists of: the command, the conditions on the key, and the RETURNING clause.
use oracle_fdw.Base.{
  ℕ, ◌≡◌, refl, ap, ◌∙◌, sym, Bool, true, false, ◌&&◌, List, [], ◌∷◌, ◌++◌, Bytes, map, filter, All,
  Option, none, some, append-nil, Bool-cases, inl, inr, if◌then◌else◌,
}
use mathlib.Core.Path.{subst}
use oracle_fdw.Result.{Result, ok, err, ◌>>=◌, bind-ok, on_conflict, Error}
use oracle_fdw.Text.{codes}
use oracle_fdw.Fdw.Columns.{as_type}
use oracle_fdw.Fdw.Modify.{
  Column, Table, Building, each, restart, is_present, key_name, check_column,
}
use oracle_fdw.Fdw.Modify.Plan.{
  CmdType, insert, update, delete, other_command, Statement, target_attrs, mark_columns, mark_used,
  is_long, build_update_query, key_condition, returning_column, returning_output,
  append_returning_clause, build_command, nothing_built, plan_foreign_modify,
}
use oracle_fdw.Fdw.Modify.Clauses.{pieces, each_lem, each_inverse}
use oracle_fdw.Fdw.Modify.Loops.{
  key_loop, output_loop, key_condition-inverse, returning_output-inverse,
}
use oracle_fdw.Fdw.Modify.Statements.{where_text, returning_text, append_returning_clause_lem}

abbrev pub changes_rows : CmdType → Bool
changes_rows update = true
changes_rows delete = true
changes_rows _ = false

-- The command without its condition: what buildUpdateQuery makes for the numbers of the columns, or
-- DELETE with the name of the table.
abbrev pub IsCommand : CmdType → Table → List ℕ → Bytes → Type 0
IsCommand update table attnums text =
    (c : Building) × (build_update_query table attnums nothing_built ≡ ok c) × (text ≡ c.sql)
IsCommand delete table attnums text = text ≡ codes "DELETE FROM " ++ table.name
IsCommand insert table attnums text = true ≡ false
IsCommand other_command table attnums text = true ≡ false

abbrev sql_of : Result Building → Bytes
sql_of (ok b) = b.sql
sql_of _ = []

key_conditions-inverse :
    (cols : List Column) (b final : Building) (s : Bytes)
    → each key_condition 0 cols (restart s b) ≡ ok final
    → final.sql ≡ (b.sql ++ s) ++ where_text cols
unfolding key_loop
key_conditions-inverse cols b final s h =
    let goods = each_inverse key_loop key_condition-inverse 0 cols (restart s b) final h in
    ap sql_of (sym h ∙ each_lem key_loop 0 cols (restart s b) goods)

build_command-inverse :
    (cmd : CmdType) (table : Table) (attnums : List ℕ) (b : Building)
    → changes_rows cmd ≡ true
    → build_command cmd table attnums nothing_built ≡ ok b
    → (command : Bytes) × IsCommand cmd table attnums command
      × (b.sql ≡ command ++ where_text table.cols)
unfolding build_command
build_command-inverse insert table attnums b k h = absurd (cc k)
build_command-inverse other_command table attnums b k h = absurd (cc k)
build_command-inverse update table attnums b k h =
    let (c, e, f) =
      bind-ok (build_update_query table attnums nothing_built)
        (λ b1. each key_condition 0 table.cols (restart [] b1)) b h in
    (
      c.sql,
      (c, e, refl),
      key_conditions-inverse table.cols c b [] f
          ∙ ap (λ t. t ++ where_text table.cols) (append-nil c.sql),
    )
build_command-inverse delete table attnums b k h = (
  codes "DELETE FROM " ++ table.name,
  refl,
  key_conditions-inverse table.cols nothing_built b (codes "DELETE FROM " ++ table.name) h,
)

outputs-inverse :
    (table : Table) (b final : Building)
    → append_returning_clause table b ≡ ok final
    → All (λ col. col.used ≡ true → check_column col ≡ ok tt) table.cols
unfolding append_returning_clause output_loop
outputs-inverse table b final h =
    let (b1, e, f) =
      bind-ok (each returning_column 0 table.cols (restart [] b))
        (λ c. each returning_output 0 table.cols (restart [] c)) final h in
    each_inverse output_loop returning_output-inverse 0 table.cols (restart [] b1) final f

append_returning_clause-inverse :
    (table : Table) (b final : Building)
    → append_returning_clause table b ≡ ok final
    → final.sql ≡ b.sql ++ returning_text table.cols
append_returning_clause-inverse table b final h =
    ap sql_of (sym h ∙ append_returning_clause_lem table b (outputs-inverse table b final h))

-- Marking columns as used leaves the conditions on the key as they are.
abbrev key_pieces : List Column → List Bytes
key_pieces cols =
    map
      (λ col.
        codes " " ++ (col.name ++ (codes " = " ++ as_type (key_name col.pgattnum) col.pgtype)))
      (filter (λ col. col.pkey) cols)

key_pieces-cons :
    (col : Column) (used : Bool) (cs cols : List Column)
    → key_pieces cs ≡ key_pieces cols
    → key_pieces (record col { used = used } ∷ cs) ≡ key_pieces (col ∷ cols)
key_pieces-cons col used cs cols e = elim (Bool-cases col.pkey) [
  | inl p ↦ rw p (
      ap
        (λ t.
          (codes " " ++ (col.name ++ (codes " = " ++ as_type (key_name col.pgattnum) col.pgtype)))
          ∷ t)
        e)
  | inr p ↦ rw p e
]

key_pieces-bind :
    (m : Result (List Column)) (col : Column) (used : Bool) (cols final : List Column)
    → ((cs : List Column) → m ≡ ok cs → key_pieces cs ≡ key_pieces cols)
    → (m >>= λ cs. ok (record col { used = used } ∷ cs)) ≡ ok final
    → key_pieces final ≡ key_pieces (col ∷ cols)
key_pieces-bind m col used cols final rest h =
    let (cs, e, f) = bind-ok m (λ cs. ok (record col { used = used } ∷ cs)) final h in
    let same : record col { used = used } ∷ cs ≡ final = cc f in
    ap key_pieces (sym same) ∙ key_pieces-cons col used cs cols (rest cs e)

mark_used-key_pieces :
    (wanted : Column → Bool) (e : Error) (cols final : List Column)
    → mark_used wanted e cols ≡ ok final
    → key_pieces final ≡ key_pieces cols
unfolding mark_used
mark_used-key_pieces wanted e [] final h = let same : [] ≡ final = cc h in ap key_pieces (sym same)
mark_used-key_pieces wanted e (col ∷ cols) final h =
    let rest : (cs : List Column)
        → mark_used wanted e cols ≡ ok cs
        → key_pieces cs ≡ key_pieces cols =
      mark_used-key_pieces wanted e cols in
    elim (Bool-cases (is_present col && wanted col)) [
      | inl w ↦ elim (Bool-cases (is_long col.oratype)) [
        | inl l ↦ absurd (cc (rw l at (rw w at h)))
        | inr l ↦
            key_pieces-bind (mark_used wanted e cols) col true cols final rest (rw l at (rw w at h))
      ]
      | inr w ↦ key_pieces-bind (mark_used wanted e cols) col col.used cols final rest (rw w at h)
    ]

mark_columns-where_text :
    (trigger : Bool) (returning : Option (Bool × List ℕ)) (cols final : List Column)
    → mark_columns trigger returning cols ≡ ok final
    → where_text final ≡ where_text cols
unfolding mark_columns
mark_columns-where_text true returning cols final h =
    ap (pieces true (codes " WHERE") (codes " AND"))
      (mark_used-key_pieces (λ col. true) _ cols final h)
mark_columns-where_text false none cols final h =
    let same : cols ≡ final = cc h in ap where_text (sym same)
mark_columns-where_text false (some (whole_row, attnums)) cols final h =
    ap (pieces true (codes " WHERE") (codes " AND")) (mark_used-key_pieces _ _ cols final h)

no_conflict :
    {A : Type 0} (c : Bool) (m : Result A) (a : A)
    → (if c then err on_conflict else m) ≡ ok a
    → m ≡ ok a
no_conflict true m a h = absurd (cc h)
no_conflict false m a h = h

-- The query is the command for the marked table, then a condition for each key column of the table that was
-- given, and then the RETURNING clause for the columns that were marked.
abbrev pub IsPlanned : Statement → Table → Building × Table → Type 0
IsPlanned s table (b, final) =
    (attnums : List ℕ) × (trigger : Bool) × (command : Bytes) × (target_attrs s
      ≡ ok (attnums, trigger))
    × IsCommand s.operation final attnums command
    × (b.sql ≡ (command ++ where_text table.cols) ++ returning_text final.cols)

-- What oraclePlanForeignModify returns for an UPDATE or a DELETE is such a query.
pub plan_foreign_modify-IsPlanned :
    (s : Statement) (table : Table) (r : Building × Table)
    → changes_rows s.operation ≡ true
    → plan_foreign_modify s table ≡ ok r
    → IsPlanned s table r
unfolding plan_foreign_modify
plan_foreign_modify-IsPlanned s table r k h =
    let h0 = no_conflict s.has_on_conflict _ r h in
    let ((attnums, trigger), e1, h1) = bind-ok (target_attrs s) _ r h0 in
    let (cols, e2, h2) = bind-ok (mark_columns trigger s.returning table.cols) _ r h1 in
    let marked : Table = record table { cols = cols } in
    let (b1, e3, h3) = bind-ok (build_command s.operation marked attnums nothing_built) _ r h2 in
    let (b2, e4, h4) = bind-ok (append_returning_clause marked b1) _ r h3 in
    let (command, is_command, text) = build_command-inverse s.operation marked attnums b1 k e3 in
    let same : (b2, marked) ≡ r = cc h4 in
    let kept = mark_columns-where_text trigger s.returning table.cols cols e2 in
    subst (IsPlanned s table) same (
      attnums,
      trigger,
      command,
      e1,
      is_command,
      append_returning_clause-inverse marked b1 b2 e4
          ∙ ap (λ t. t ++ returning_text cols) (text ∙ ap (λ t. command ++ t) kept),
    )
