-- ===== src/Fdw/Columns/Binding.antt =====
-- The values of a column are bound in a form that its PostgreSQL type has.
use oracle_fdw.Base.{
  ◌≡◌, refl, Bool, true, false, Bool-cases, inl, inr, ◌&&◌, ◌||◌, not, List, [], ◌∷◌, All,
}
use oracle_fdw.Base.Int.{ℤ, is_pos}
use oracle_fdw.Result.{Result, ok, err, fault}
use oracle_fdw.Jni.Types.{
  OraType, varchar2, char, nvarchar2, nchar, number, float, binary_float, binary_double, raw, date,
  timestamp, timestamp_tz, timestamp_ltz, interval_year_to_month, interval_day_to_second, blob,
  clob, nclob, bfile, long, long_raw, geometry, xmltype, other,
}
use oracle_fdw.Fdw.Columns.{
  PgType, invalid_oid, bytea, uuid, text, varchar, bpchar, numeric, float4, float8, int2, int4,
  int8, bool, pg_date, pg_timestamp, timestamptz, interval, json, xml, postgis_geometry, other_type,
  is_bytea, is_string, is_real, is_integral, is_geometry, ora_geometry, is_json, convertible,
  check_data_type, bind_type, BindType, bind_string, bind_number, bind_long, bind_longraw,
  bind_geometry, bind_output,
}

-- What setModifyParameters takes from the datum: the bytes of a bytea for BIND_LONGRAW, of a string or
-- of json for BIND_LONG, an EWKB for BIND_GEOMETRY, and a text that the type's output function makes
-- for the others.
abbrev pub fits : BindType → PgType → Bool
fits bind_longraw pgtype = is_bytea pgtype
fits bind_geometry pgtype = is_geometry pgtype
fits bind_long pgtype = is_string pgtype || is_json pgtype
fits bind_number pgtype = is_real pgtype || is_integral pgtype || is_string pgtype
fits bind_string pgtype = not (is_bytea pgtype) && not (is_geometry pgtype)
fits bind_output pgtype = false

-- A column of Oracle's SDO_GEOMETRY that PostgreSQL holds as a string.
abbrev pub geometry_as_string : OraType → PgType → Bool
geometry_as_string oratype pgtype = ora_geometry oratype && is_string pgtype

abbrev same : Bool → Bool → Bool
same true b = b
same false b = not b

same-eq : (a b : Bool) → same a b ≡ true → a ≡ b
same-eq true true h = refl
same-eq true false h = absurd (cc h)
same-eq false true h = absurd (cc h)
same-eq false false h = refl

abbrev bound_fits : Result BindType → PgType → Bool → Bool
bound_fits (ok b) pgtype expected = same (fits b pgtype) expected
bound_fits (err e) pgtype expected = true
bound_fits (fault e) pgtype expected = true

abbrev agree : Bool → OraType → PgType → Bool
agree whole oratype pgtype =
    not (convertible oratype whole pgtype)
    || bound_fits (bind_type oratype pgtype) pgtype (not (geometry_as_string oratype pgtype))

abbrev holds : {A : Type 0} → (A → Bool) → List A → Bool
holds f [] = true
holds f (x ∷ xs) = f x && holds f xs

abbrev pg_types : List PgType
pg_types =
    invalid_oid ∷ bytea ∷ uuid ∷ text ∷ varchar ∷ bpchar ∷ numeric ∷ float4 ∷ float8 ∷ int2 ∷ int4
    ∷ int8 ∷ bool ∷ pg_date ∷ pg_timestamp ∷ timestamptz ∷ interval ∷ json ∷ xml ∷ postgis_geometry
    ∷ other_type ∷ []

abbrev ora_types : List OraType
ora_types =
    varchar2 ∷ char ∷ nvarchar2 ∷ nchar ∷ number ∷ float ∷ binary_float ∷ binary_double ∷ raw ∷ date
    ∷ timestamp ∷ timestamp_tz ∷ timestamp_ltz ∷ interval_year_to_month ∷ interval_day_to_second
    ∷ blob ∷ clob ∷ nclob ∷ bfile ∷ long ∷ long_raw ∷ geometry ∷ xmltype ∷ other ∷ []

both : (a b : Bool) → a && b ≡ true → (a ≡ true) × (b ≡ true)
both true b h = (refl, h)
both false b h = absurd (cc h)

holds-All : {A : Type 0} (f : A → Bool) (xs : List A) → holds f xs ≡ true → All (λ x. f x ≡ true) xs
holds-All f [] h = tt
holds-All f (x ∷ xs) h = let (a, b) = both (f x) (holds f xs) h in (a, holds-All f xs b)

on_pg : (f : PgType → Bool) → All (λ t. f t ≡ true) pg_types → (t : PgType) → f t ≡ true
on_pg f h invalid_oid = h.0
on_pg f h bytea = h.1.0
on_pg f h uuid = h.1.1.0
on_pg f h text = h.1.1.1.0
on_pg f h varchar = h.1.1.1.1.0
on_pg f h bpchar = h.1.1.1.1.1.0
on_pg f h numeric = h.1.1.1.1.1.1.0
on_pg f h float4 = h.1.1.1.1.1.1.1.0
on_pg f h float8 = h.1.1.1.1.1.1.1.1.0
on_pg f h int2 = h.1.1.1.1.1.1.1.1.1.0
on_pg f h int4 = h.1.1.1.1.1.1.1.1.1.1.0
on_pg f h int8 = h.1.1.1.1.1.1.1.1.1.1.1.0
on_pg f h bool = h.1.1.1.1.1.1.1.1.1.1.1.1.0
on_pg f h pg_date = h.1.1.1.1.1.1.1.1.1.1.1.1.1.0
on_pg f h pg_timestamp = h.1.1.1.1.1.1.1.1.1.1.1.1.1.1.0
on_pg f h timestamptz = h.1.1.1.1.1.1.1.1.1.1.1.1.1.1.1.0
on_pg f h interval = h.1.1.1.1.1.1.1.1.1.1.1.1.1.1.1.1.0
on_pg f h json = h.1.1.1.1.1.1.1.1.1.1.1.1.1.1.1.1.1.0
on_pg f h xml = h.1.1.1.1.1.1.1.1.1.1.1.1.1.1.1.1.1.1.0
on_pg f h postgis_geometry = h.1.1.1.1.1.1.1.1.1.1.1.1.1.1.1.1.1.1.1.0
on_pg f h other_type = h.1.1.1.1.1.1.1.1.1.1.1.1.1.1.1.1.1.1.1.1.0

on_ora : (f : OraType → Bool) → All (λ t. f t ≡ true) ora_types → (t : OraType) → f t ≡ true
on_ora f h varchar2 = h.0
on_ora f h char = h.1.0
on_ora f h nvarchar2 = h.1.1.0
on_ora f h nchar = h.1.1.1.0
on_ora f h number = h.1.1.1.1.0
on_ora f h float = h.1.1.1.1.1.0
on_ora f h binary_float = h.1.1.1.1.1.1.0
on_ora f h binary_double = h.1.1.1.1.1.1.1.0
on_ora f h raw = h.1.1.1.1.1.1.1.1.0
on_ora f h date = h.1.1.1.1.1.1.1.1.1.0
on_ora f h timestamp = h.1.1.1.1.1.1.1.1.1.1.0
on_ora f h timestamp_tz = h.1.1.1.1.1.1.1.1.1.1.1.0
on_ora f h timestamp_ltz = h.1.1.1.1.1.1.1.1.1.1.1.1.0
on_ora f h interval_year_to_month = h.1.1.1.1.1.1.1.1.1.1.1.1.1.0
on_ora f h interval_day_to_second = h.1.1.1.1.1.1.1.1.1.1.1.1.1.1.0
on_ora f h blob = h.1.1.1.1.1.1.1.1.1.1.1.1.1.1.1.0
on_ora f h clob = h.1.1.1.1.1.1.1.1.1.1.1.1.1.1.1.1.0
on_ora f h nclob = h.1.1.1.1.1.1.1.1.1.1.1.1.1.1.1.1.1.0
on_ora f h bfile = h.1.1.1.1.1.1.1.1.1.1.1.1.1.1.1.1.1.1.0
on_ora f h long = h.1.1.1.1.1.1.1.1.1.1.1.1.1.1.1.1.1.1.1.0
on_ora f h long_raw = h.1.1.1.1.1.1.1.1.1.1.1.1.1.1.1.1.1.1.1.1.0
on_ora f h geometry = h.1.1.1.1.1.1.1.1.1.1.1.1.1.1.1.1.1.1.1.1.1.0
on_ora f h xmltype = h.1.1.1.1.1.1.1.1.1.1.1.1.1.1.1.1.1.1.1.1.1.1.0
on_ora f h other = h.1.1.1.1.1.1.1.1.1.1.1.1.1.1.1.1.1.1.1.1.1.1.1.0

agree_all : (whole : Bool) → holds (λ o. holds (λ t. agree whole o t) pg_types) ora_types ≡ true
unfolding convertible bind_type
agree_all true = refl
agree_all false = refl

agree_lem : (whole : Bool) (oratype : OraType) (pgtype : PgType) → agree whole oratype pgtype ≡ true
agree_lem whole oratype pgtype =
    on_pg (agree whole oratype)
      (holds-All (agree whole oratype) pg_types (
        on_ora (λ o. holds (λ t. agree whole o t) pg_types)
          (holds-All (λ o. holds (λ t. agree whole o t) pg_types) ora_types (agree_all whole))
          oratype))
      pgtype

-- If checkDataType accepts the types of a column and addParam has a bind type for it, the values of
-- that PostgreSQL type have the form that this bind type needs, except for an SDO_GEOMETRY that is a
-- string in PostgreSQL, where they never have it: the string is taken for an EWKB.
pub bind_type-fits :
    (oratype : OraType) (scale : ℤ) (pgtype : PgType) (b : BindType)
    → check_data_type oratype scale pgtype ≡ ok tt
    → bind_type oratype pgtype ≡ ok b
    → fits b pgtype ≡ not (geometry_as_string oratype pgtype)
unfolding check_data_type
bind_type-fits oratype scale pgtype b h e =
    elim (Bool-cases (convertible oratype (not (is_pos scale)) pgtype)) [
      | inl c ↦
          same-eq (fits b pgtype) (not (geometry_as_string oratype pgtype))
            (rw e at (rw c at (agree_lem (not (is_pos scale)) oratype pgtype)))
      | inr c ↦ absurd (cc (h, c))
    ]
