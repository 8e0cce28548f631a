-- ===== src/Fdw/Modify.antt =====
-- oracle_fdw.c, the statements that change rows: getColumnData, oracleAddForeignUpdateTargets,
-- buildInsertQuery, buildUpdateQuery, appendReturningClause and oraclePlanForeignModify, which puts
-- them together. The table's description by oracleDescribe, PostgreSQL's catalog and its lists of
-- columns are arguments.
pub mod Plan
pub mod Clauses
pub mod Loops
pub mod Statements
pub mod Updates
pub mod Planned
pub mod Keys
pub mod Conditions
pub mod Beyond
use oracle_fdw.Base.{
  ℕ, suc, Bool, true, false, ◌&&◌, ◌||◌, not, List, [], ◌∷◌, ◌++◌, Option, none, some, Bytes, map,
  take, ltb, ◌==◌, if◌then◌else◌,
}
use oracle_fdw.Base.Int.{ℤ}
use oracle_fdw.Result.{
  Result, ok, err, ◌>>=◌, ◌>>◌, no_key, nothing_updated, long_in_returning, long_with_trigger,
  on_conflict, impossible_option, Error,
}
use oracle_fdw.Text.{codes, decimal, decimal_padded}
use oracle_fdw.Jni.Types.{OraType, long, long_raw, equal}
use oracle_fdw.Fdw.Columns.{
  PgType, invalid_oid, Param, BindType, bind_output, check_data_type, add_param, as_type, ora_xml,
}
use oracle_fdw.Fdw.Options.Values.{get_bool_val}

-- oraColumn, without the buffers for values. A pgname of none is the null pointer, and `pkey` is
-- whether the field is not zero.
pub record Column : Type 0 where
  pub name : Bytes
  pub oratype : OraType
  pub scale : ℤ
  pub pgname : Option Bytes
  pub pgattnum : ℕ
  pub pgtype : PgType
  pub pgtypmod : ℤ
  pub used : Bool
  pub strip_zeros : Bool
  pub pkey : Bool

pub record Table : Type 0 where
  pub name : Bytes
  pub cols : List Column

-- Form_pg_attribute with the options of the column, which have a name and a value.
pub record Attribute : Type 0 where
  pub attname : Bytes
  pub attnum : ℕ
  pub atttypid : PgType
  pub atttypmod : ℤ
  pub attisdropped : Bool
  pub options : List (Bytes × Bytes)

-- Whether the option is the one of the name, and set.
unfoldable pub flag_option : Bytes → Bytes → Bytes → Result Bool
flag_option name defname arg = if equal defname name then get_bool_val defname arg else ok false

abbrev pub mark_column : Bool → Bool → Column → Column
mark_column key strip col = record col {
  pkey = col.pkey || key;
  strip_zeros = col.strip_zeros || strip;
}

-- The loop of getColumnData over the options of a column; strip_zeros is not looked at where the key
-- is set.
unfoldable pub column_options : List (Bytes × Bytes) → Column → Result Column
column_options [] col = ok col
column_options ((defname, arg) ∷ options) col =
    let rest = column_options options in
    flag_option (codes "key") defname arg >>= λ key.
    (if key then ok false else flag_option (codes "strip_zeros") defname arg) >>= λ strip.
    rest (mark_column key strip col)

-- The description of an attribute goes into the column of the same index.
abbrev pub describe : Attribute → Column → Column
describe att col = record col {
  pgattnum = att.attnum;
  pgtype = att.atttypid;
  pgtypmod = att.atttypmod;
  pgname = some att.attname;
}

-- The first loop of getColumnData: attributes behind the last column are left out.
unfoldable pub get_column_data : List Attribute → List Column → Result (List Column)
get_column_data [] cols = ok cols
get_column_data (att ∷ atts) [] = ok []
get_column_data (att ∷ atts) (col ∷ cols) =
    let next = get_column_data atts in
    if att.attisdropped
    then next (col ∷ cols)
    else (column_options att.options (describe att col) >>= λ c. next cols >>= λ cs. ok (c ∷ cs))

-- The loop of oracleAddForeignUpdateTargets over the options of a column: how often it is a key.
unfoldable pub key_options : List (Bytes × Bytes) → Result (List Bytes)
key_options [] = ok []
key_options ((defname, arg) ∷ options) =
    let rest = key_options options in
    if equal defname (codes "key")
    then (get_bool_val defname arg >>= λ key. rest >>= λ ks. ok (if key then defname ∷ ks else ks))
    else if equal defname (codes "strip_zeros")
    then rest
    else err (impossible_option defname)

-- The names of the key columns, which become junk columns of the target list.
unfoldable pub key_targets : List Attribute → Result (List Bytes)
key_targets [] = ok []
key_targets (att ∷ atts) = key_options att.options >>= λ ks.
    key_targets atts >>= λ rest. ok (map (λ k. att.attname) ks ++ rest)

abbrev at_least_one : List Bytes → Result (List Bytes)
at_least_one [] = err no_key
at_least_one (k ∷ ks) = ok (k ∷ ks)

-- oracleAddForeignUpdateTargets
unfoldable pub add_update_targets : List Attribute → Result (List Bytes)
add_update_targets atts = key_targets atts >>= at_least_one

-- What the loops that build a statement change: the text, firstcol, and paramList.
pub record Building : Type 0 where
  pub sql : Bytes
  pub firstcol : Bool
  pub params : List Param

abbrev pub append : Bytes → Building → Building
append s b = record b { sql = b.sql ++ s }

-- Another loop begins.
abbrev pub restart : Bytes → Building → Building
restart s b = record b { sql = b.sql ++ s; firstcol = true }

-- The text before a piece: `opening` before the first one.
abbrev pub separate : Bytes → Bytes → Building → Building
separate opening between b = record b {
  sql = b.sql ++ (if b.firstcol then opening else between);
  firstcol = false;
}

-- for (i = 0; i < ncols; ++i)
unfoldable pub each :
    (ℕ → Column → Building → Result Building) → ℕ → List Column → Building → Result Building
each step i [] b = ok b
each step i (col ∷ cols) b = step i col b >>= each step (suc i) cols

abbrev pub is_set : Option Bytes → Bool
is_set none = false
is_set (some name) = true

abbrev pub is_present : Column → Bool
is_present col = is_set col.pgname

-- snprintf(paramName, 9, ":p%.5d", attnum), and the same with ":k%d" and ":r%d"
unfoldable pub param_name : ℕ → Bytes
param_name attnum = take 8 (codes ":p" ++ decimal_padded 5 attnum)

unfoldable pub key_name : ℕ → Bytes
key_name attnum = take 8 (codes ":k" ++ decimal attnum)

unfoldable pub output_name : ℕ → Bytes
output_name attnum = take 8 (codes ":r" ++ decimal attnum)

abbrev pub check_column : Column → Result (Unit {0})
check_column col = check_data_type col.oratype col.scale col.pgtype

-- The two loops of buildInsertQuery.
unfoldable pub insert_column : ℕ → Column → Building → Result Building
insert_column i col b =
    if is_present col then ok (append col.name (separate [] (codes ", ") b)) else ok b

unfoldable pub insert_value : ℕ → Column → Building → Result Building
insert_value i col b =
    let name = param_name col.pgattnum in
    if is_present col
    then check_column col
      >> (add_param b.params name col.pgtype col.oratype i >>= λ params. ok (
          append (as_type name col.pgtype)
            (separate [] (codes ", ") (record b { params = params }))))
    else ok b

unfoldable pub build_insert_query : Table → Building → Result Building
build_insert_query table b =
    each insert_column 0 table.cols (restart (codes "INSERT INTO " ++ (table.name ++ codes " (")) b)
    >>= λ b1. each insert_value 0 table.cols (restart (codes ") VALUES (") b1) >>= λ b2.
        ok (append (codes ")") b2)
