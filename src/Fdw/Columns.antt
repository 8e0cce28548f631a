-- ===== src/Fdw/Columns.antt =====
-- oracle_fdw.c, checkDataType, addParam and appendAsType: which PostgreSQL types stand for an Oracle
-- type, and how the parameter of a column is bound. The warning that checkDataType logs about CLOBs
-- with a client of version 21 is left out: it changes nothing.
pub mod Binding
use oracle_fdw.Base.{
  ℕ, Bool, true, false, ◌&&◌, ◌||◌, not, List, [], ◌∷◌, ◌++◌, Option, Bytes, if◌then◌else◌,
}
use oracle_fdw.Base.Int.{ℤ, is_pos}
use oracle_fdw.Result.{Result, ok, err, ◌>>=◌, inconvertible, bfile_column}
use oracle_fdw.Text.{codes}
use oracle_fdw.Jni.Types.{
  OraType, varchar2, number, float, binary_float, binary_double, raw, date, timestamp, timestamp_tz,
  timestamp_ltz, interval_year_to_month, interval_day_to_second, blob, clob, nclob, bfile, long,
  long_raw, geometry, xmltype, other,
}

-- The types that the code tells apart, by PostgreSQL's names: the Oid of a column, where
-- `postgis_geometry` is GEOMETRYOID and `invalid_oid` is InvalidOid.
pub data PgType : Type 0 where
  invalid_oid bytea uuid text varchar bpchar numeric float4 float8 int2 int4 int8 bool : PgType
  pg_date pg_timestamp timestamptz interval json xml postgis_geometry other_type : PgType

abbrev pub is_bytea : PgType → Bool
is_bytea bytea = true
is_bytea _ = false

abbrev pub is_uuid : PgType → Bool
is_uuid uuid = true
is_uuid _ = false

abbrev pub is_string : PgType → Bool
is_string text = true
is_string varchar = true
is_string bpchar = true
is_string _ = false

abbrev pub is_real : PgType → Bool
is_real numeric = true
is_real float4 = true
is_real float8 = true
is_real _ = false

abbrev pub is_integral : PgType → Bool
is_integral int2 = true
is_integral int4 = true
is_integral int8 = true
is_integral bool = true
is_integral _ = false

abbrev pub is_time : PgType → Bool
is_time pg_date = true
is_time pg_timestamp = true
is_time timestamptz = true
is_time _ = false

abbrev pub is_interval : PgType → Bool
is_interval interval = true
is_interval _ = false

abbrev pub is_geometry : PgType → Bool
is_geometry postgis_geometry = true
is_geometry _ = false

abbrev pub is_json : PgType → Bool
is_json json = true
is_json _ = false

abbrev pub is_xml : PgType → Bool
is_xml xml = true
is_xml _ = false

-- ORA_TYPE_RAW, ORA_TYPE_BLOB, ORA_TYPE_BFILE and ORA_TYPE_LONGRAW
abbrev ora_binary : OraType → Bool
ora_binary raw = true
ora_binary blob = true
ora_binary bfile = true
ora_binary long_raw = true
ora_binary _ = false

abbrev ora_raw : OraType → Bool
ora_raw raw = true
ora_raw _ = false

abbrev ora_other : OraType → Bool
ora_other other = true
ora_other _ = false

abbrev ora_numeric : OraType → Bool
ora_numeric number = true
ora_numeric float = true
ora_numeric binary_float = true
ora_numeric binary_double = true
ora_numeric _ = false

abbrev ora_number : OraType → Bool
ora_number number = true
ora_number _ = false

abbrev ora_time : OraType → Bool
ora_time date = true
ora_time timestamp = true
ora_time timestamp_tz = true
ora_time timestamp_ltz = true
ora_time _ = false

abbrev ora_interval : OraType → Bool
ora_interval interval_year_to_month = true
ora_interval interval_day_to_second = true
ora_interval _ = false

abbrev pub ora_geometry : OraType → Bool
ora_geometry geometry = true
ora_geometry _ = false

abbrev ora_character : OraType → Bool
ora_character varchar2 = true
ora_character clob = true
ora_character nclob = true
ora_character _ = false

abbrev pub ora_xml : OraType → Bool
ora_xml xmltype = true
ora_xml _ = false

-- The early returns of checkDataType, in their order; `whole` is scale <= 0.
unfoldable pub convertible : OraType → Bool → PgType → Bool
convertible oratype whole pgtype =
    (ora_binary oratype && is_bytea pgtype)
    || (ora_raw oratype && is_uuid pgtype)
    || (not (ora_other oratype) && not (ora_binary oratype) && is_string pgtype)
    || (ora_numeric oratype && is_real pgtype)
    || (ora_number oratype && whole && is_integral pgtype)
    || (ora_time oratype && is_time pgtype)
    || (ora_interval oratype && is_interval pgtype)
    || (ora_geometry oratype && is_geometry pgtype)
    || (ora_character oratype && is_json pgtype)
    || (ora_xml oratype && is_xml pgtype)

unfoldable pub check_data_type : OraType → ℤ → PgType → Result (Unit {0})
check_data_type oratype scale pgtype =
    if convertible oratype (not (is_pos scale)) pgtype then ok tt else err inconvertible

-- oraBindType
pub data BindType : Type 0 where
  bind_string bind_number bind_long bind_longraw bind_geometry bind_output : BindType

-- The switch of addParam.
unfoldable pub bind_type : OraType → PgType → Result BindType
bind_type number pgtype = ok bind_number
bind_type float pgtype = ok bind_number
bind_type long pgtype = ok bind_long
bind_type clob pgtype = ok bind_long
bind_type nclob pgtype = ok bind_long
bind_type raw pgtype = ok (if is_uuid pgtype then bind_string else bind_longraw)
bind_type long_raw pgtype = ok bind_longraw
bind_type blob pgtype = ok bind_longraw
bind_type bfile pgtype = err bfile_column
bind_type geometry pgtype = ok bind_geometry
bind_type _ pgtype = ok bind_string

-- paramDesc, without the value, the expression and the handle, which are set later.
pub record Param : Type 0 where
  pub name : Bytes
  pub pgtype : PgType
  pub bind : BindType
  pub colnum : ℕ

unfoldable pub add_param : List Param → Bytes → PgType → OraType → ℕ → Result (List Param)
add_param params name pgtype oratype colnum = bind_type oratype pgtype >>= λ b.
    ok (record { name = name; pgtype = pgtype; bind = b; colnum = colnum } ∷ params)

-- The text that appendAsType appends.
unfoldable pub as_type : Bytes → PgType → Bytes
as_type s pg_date = codes "CAST (" ++ (s ++ codes " AS DATE)")
as_type s pg_timestamp = codes "CAST (" ++ (s ++ codes " AS TIMESTAMP)")
as_type s timestamptz = codes "CAST (" ++ (s ++ codes " AS TIMESTAMP WITH TIME ZONE)")
as_type s _ = s
