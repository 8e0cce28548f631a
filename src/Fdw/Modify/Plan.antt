-- ===== src/Fdw/Modify/Plan.antt =====
-- oracle_fdw.c, buildUpdateQuery, appendReturningClause, hasTrigger and oraclePlanForeignModify. What
-- PostgreSQL knows about the statement is an argument; the state of the foreign table, which getFdwState
-- or the plan of the scan supplies, is its table, with an empty list of parameters.
use oracle_fdw.Base.{
  ℕ, suc, Bool, true, false, ◌&&◌, ◌||◌, List, [], ◌∷◌, ◌++◌, Option, none, some, ltb, ◌==◌,
  if◌then◌else◌,
}
use oracle_fdw.Result.{
  Result, ok, err, ◌>>=◌, ◌>>◌, nothing_updated, long_in_returning, long_with_trigger, on_conflict,
  unexpected_operation, system_column, Error,
}
use oracle_fdw.Text.{codes}
use oracle_fdw.Jni.Types.{OraType, long, long_raw}
use oracle_fdw.Fdw.Columns.{PgType, invalid_oid, Param, bind_output, add_param, as_type, ora_xml}
use oracle_fdw.Fdw.Modify.{
  Column, Table, Attribute, Building, append, restart, separate, each, is_present, param_name,
  key_name, output_name, check_column, build_insert_query,
}

abbrev pub has_no_type : PgType → Bool
has_no_type invalid_oid = true
has_no_type _ = false

-- while (i < ncols && cols[i]->pgattnum < attnum) ++i, with the columns from i on
unfoldable pub advance : ℕ → ℕ → List Column → ℕ × List Column
advance attnum i [] = (i, [])
advance attnum i (col ∷ cols) =
    let rest = advance attnum (suc i) cols in
    if ltb col.pgattnum attnum then rest else (i, col ∷ cols)

-- The assignment for the column at index i.
unfoldable pub update_column : ℕ → ℕ → Column → Building → Result Building
update_column attnum i col b =
    let name = param_name attnum in
    if has_no_type col.pgtype
    then ok b
    else (check_column col
        >> (add_param b.params name col.pgtype col.oratype i >>= λ params. ok (
            append (col.name ++ (codes " = " ++ as_type name col.pgtype))
              (separate [] (codes ", ") (record b { params = params })))))

abbrev at_column :
    ℕ
    → (ℕ → List Column → Building → Result Building)
    → Building
    → ℕ × List Column
    → Result Building
at_column attnum next b (i, []) = ok b
at_column attnum next b (i, col ∷ cols) = update_column attnum i col b >>= next i (col ∷ cols)

-- The loop of buildUpdateQuery over targetAttrs.
unfoldable pub update_columns : List ℕ → ℕ → List Column → Building → Result Building
update_columns [] i cols b = ok b
update_columns (attnum ∷ attnums) i cols b =
    at_column attnum (update_columns attnums) b (advance attnum i cols)

abbrev some_updated : Building → Result Building
some_updated b = if b.firstcol then err nothing_updated else ok b

unfoldable pub build_update_query : Table → List ℕ → Building → Result Building
build_update_query table attnums b =
    update_columns attnums 0 table.cols
      (restart (codes "UPDATE " ++ (table.name ++ codes " SET ")) b)
    >>= some_updated

-- The condition on a key column.
unfoldable pub key_condition : ℕ → Column → Building → Result Building
key_condition i col b =
    let name = key_name col.pgattnum in
    if col.pkey
    then (add_param b.params name col.pgtype col.oratype i >>= λ params. ok (
        append (codes " " ++ (col.name ++ (codes " = " ++ as_type name col.pgtype)))
          (separate (codes " WHERE") (codes " AND") (record b { params = params }))))
    else ok b

-- The two loops of appendReturningClause.
unfoldable pub returning_column : ℕ → Column → Building → Result Building
returning_column i col b =
    if col.used
    then ok (
        append
          (if ora_xml col.oratype
            then codes "(" ++ (col.name ++ codes ").getclobval()")
            else col.name)
          (separate (codes " RETURNING ") (codes ", ") b))
    else ok b

unfoldable pub returning_output : ℕ → Column → Building → Result Building
returning_output i col b =
    let name = output_name col.pgattnum in
    let param : Param = record {
      name = name;
      pgtype = col.pgtype;
      bind = bind_output;
      colnum = i;
    } in
    if col.used
    then check_column col
      >> ok (
          append name
            (separate (codes " INTO ") (codes ", ") (record b { params = param ∷ b.params })))
    else ok b

unfoldable pub append_returning_clause : Table → Building → Result Building
append_returning_clause table b = each returning_column 0 table.cols (restart [] b) >>= λ b1.
    each returning_output 0 table.cols (restart [] b1)

-- CmdType, as far as the code tells it apart
pub data CmdType : Type 0 where
  insert update delete other_command : CmdType

abbrev pub is_insert : CmdType → Bool
is_insert insert = true
is_insert _ = false

-- The fields of TriggerDesc that are read.
pub record Triggers : Type 0 where
  pub update_before_row : Bool
  pub update_after_row : Bool
  pub insert_after_row : Bool
  pub delete_after_row : Bool

abbrev after_row : Triggers → CmdType → Bool
after_row t insert = t.insert_after_row
after_row t update = t.update_after_row
after_row t delete = t.delete_after_row
after_row t other_command = false

unfoldable pub has_trigger : Option Triggers → CmdType → Bool
has_trigger none cmd = false
has_trigger (some t) cmd = after_row t cmd

abbrev before_update : Option Triggers → Bool
before_update none = false
before_update (some t) = t.update_before_row

-- The statement: its command, whether it has ON CONFLICT, the triggers and the attributes of the table, the
-- columns that an UPDATE sets, and the columns of the RETURNING list, if there is one, with whether it
-- names the whole row.
pub record Statement : Type 0 where
  pub operation : CmdType
  pub has_on_conflict : Bool
  pub triggers : Option Triggers
  pub attributes : List Attribute
  pub updated : List ℕ
  pub returning : Option (Bool × List ℕ)

unfoldable pub live_attnums : List Attribute → List ℕ
live_attnums [] = []
live_attnums (att ∷ atts) =
    let rest = live_attnums atts in if att.attisdropped then rest else att.attnum ∷ rest

-- A column number of zero stands for those of system columns.
unfoldable pub updated_attnums : List ℕ → Result (List ℕ)
updated_attnums [] = ok []
updated_attnums (attnum ∷ attnums) =
    let rest = updated_attnums attnums in
    if attnum == 0 then err system_column else (rest >>= λ rest_attnums. ok (attnum ∷ rest_attnums))

-- All columns are sent to Oracle, and has_trigger is set.
abbrev all_columns : Statement → CmdType → List ℕ × Bool
all_columns s cmd = (live_attnums s.attributes, has_trigger s.triggers cmd)

abbrev target_attrs_of : Statement → CmdType → Result (List ℕ × Bool)
target_attrs_of s insert = ok (all_columns s insert)
target_attrs_of s update =
    if before_update s.triggers
    then ok (all_columns s insert)
    else (updated_attnums s.updated >>= λ attnums. ok (attnums, has_trigger s.triggers update))
target_attrs_of s delete = ok ([], has_trigger s.triggers delete)
target_attrs_of s other_command = err unexpected_operation

-- targetAttrs and has_trigger: with a BEFORE UPDATE trigger, an UPDATE takes the branch of INSERT.
unfoldable pub target_attrs : Statement → Result (List ℕ × Bool)
target_attrs s = target_attrs_of s s.operation

abbrev pub is_long : OraType → Bool
is_long long = true
is_long long_raw = true
is_long _ = false

-- The columns for which `wanted` holds are marked as used, unless one is a LONG or a LONG RAW.
unfoldable pub mark_used : (Column → Bool) → Error → List Column → Result (List Column)
mark_used wanted e [] = ok []
mark_used wanted e (col ∷ cols) =
    let rest = mark_used wanted e cols in
    if is_present col && wanted col
    then (if is_long col.oratype
        then err e
        else (rest >>= λ cs. ok (record col { used = true } ∷ cs)))
    else (rest >>= λ cs. ok (col ∷ cs))

abbrev is_member : ℕ → List ℕ → Bool
is_member n [] = false
is_member n (m ∷ ms) = n == m || is_member n ms

-- The columns that the RETURNING list needs.
abbrev mark_returning : Option (Bool × List ℕ) → List Column → Result (List Column)
mark_returning none cols = ok cols
mark_returning (some (whole_row, attnums)) cols =
    mark_used (λ col. whole_row || is_member col.pgattnum attnums) long_in_returning cols

unfoldable pub mark_columns : Bool → Option (Bool × List ℕ) → List Column → Result (List Column)
mark_columns trigger returning cols =
    if trigger
    then mark_used (λ col. true) long_with_trigger cols
    else mark_returning returning cols

-- The command, and the condition on the key for UPDATE and DELETE.
unfoldable pub build_command : CmdType → Table → List ℕ → Building → Result Building
build_command insert table attnums b = build_insert_query table b
build_command update table attnums b =
    build_update_query table attnums b >>= λ b1. each key_condition 0 table.cols (restart [] b1)
build_command delete table attnums b =
    each key_condition 0 table.cols (restart (codes "DELETE FROM " ++ table.name) b)
build_command other_command table attnums b = err unexpected_operation

abbrev pub nothing_built : Building
nothing_built = record { sql = []; firstcol = true; params = [] }

-- oraclePlanForeignModify: the query with its parameters, and the table with the columns marked.
unfoldable pub plan_foreign_modify : Statement → Table → Result (Building × Table)
plan_foreign_modify s table =
    if s.has_on_conflict
    then err on_conflict
    else (target_attrs s >>= λ (attnums, trigger).
        mark_columns trigger s.returning table.cols >>= λ cols.
        build_command s.operation (record table { cols = cols }) attnums nothing_built >>= λ b1.
        append_returning_clause (record table { cols = cols }) b1 >>= λ b2.
        ok (b2, record table { cols = cols }))
