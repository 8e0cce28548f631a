-- ===== src/Fdw/Options/Values.antt =====
-- oracle_fdw.c, getBoolVal, getIsolationLevel, and the tests of oracle_fdw_validator on the values of the
-- options. strtod belongs to the C library and works on floating-point numbers: it is a parameter.
use oracle_fdw.Base.{
  ℕ, Bool, true, false, ◌&&◌, ◌||◌, not, [], ◌∷◌, Bytes, ltb, leb, ◌==◌, if◌then◌else◌,
}
use oracle_fdw.Base.Int.{ℤ, abs, is_neg}
use oracle_fdw.Result.{Result, ok, err, ◌>>=◌, ◌>>◌, invalid_value}
use oracle_fdw.Text.{codes}
use oracle_fdw.Jni.Types.{equal, lowercase}
use oracle_fdw.Fdw.Options.Numbers.{Parsed, strtol, strtoul}

-- strtod, and whether a number is below 0.000001 or above 100.0.
pub record Strtod : Type 1 where
  pub Double : Type 0
  pub strtod : Bytes → Parsed Double
  pub out_of_range : Double → Bool

-- pg_strcasecmp(s, word) == 0, for a word in lower case
abbrev is_word : Bytes → Bytes → Bool
is_word s word = equal (lowercase s) word

-- getBoolVal of an option
unfoldable pub get_bool_val : Bytes → Bytes → Result Bool
get_bool_val name s =
    if is_word s (codes "on") || is_word s (codes "yes") || is_word s (codes "true")
    then ok true
    else if is_word s (codes "off") || is_word s (codes "no") || is_word s (codes "false")
    then ok false
    else err (invalid_value name)

-- oraIsoLevel
pub data IsoLevel : Type 0 where
  read_committed read_only serializable : IsoLevel

unfoldable pub get_isolation_level : Bytes → Result IsoLevel
get_isolation_level level =
    if equal level (codes "serializable")
    then ok serializable
    else if equal level (codes "read_committed")
    then ok read_committed
    else if equal level (codes "read_only")
    then ok read_only
    else err (invalid_value (codes "isolation_level"))

-- A call whose value is not used.
abbrev pub ignore : {A : Type 0} → Result A → Result (Unit {0})
ignore m = m >>= λ _. ok tt

-- strchr(val, '"') != NULL
abbrev pub has_quote : Bytes → Bool
has_quote [] = false
has_quote (c ∷ s) = c == b'"' || has_quote s

abbrev pub is_empty : Bytes → Bool
is_empty [] = true
is_empty (c ∷ s) = false

abbrev pub reject_if : Bool → Bytes → Result (Unit {0})
reject_if bad name = if bad then err (invalid_value name) else ok tt

-- The whole text is a number: val[0] != '\0' && *endptr == '\0' && errno == 0
abbrev pub is_whole : {A : Type 0} → Bytes → Parsed A → Bool
is_whole value p = not (is_empty value) && is_empty p.rest && not p.errno

abbrev pub between : ℕ → ℕ → ℤ → Bool
between low high n = not (is_neg n) && leb low (abs n) && leb (abs n) high

unfoldable pub check_max_long : Bytes → Result (Unit {0})
check_max_long value =
    let p = strtoul value in
    reject_if (not (is_whole value p) || ltb p.value 1 || ltb 1073741823 p.value) (codes "max_long")

unfoldable pub check_sample : Strtod → Bytes → Result (Unit {0})
check_sample s value =
    let p = s.strtod value in
    reject_if (not (is_whole value p) || s.out_of_range p.value) (codes "sample_percent")

unfoldable pub check_prefetch : Bytes → Result (Unit {0})
check_prefetch value =
    let p = strtol value in
    reject_if (not (is_whole value p && between 1 10240 p.value)) (codes "prefetch")

unfoldable pub check_lob_prefetch : Bytes → Result (Unit {0})
check_lob_prefetch value =
    let p = strtol value in
    reject_if (not (is_whole value p && between 0 536870912 p.value)) (codes "lob_prefetch")

-- The tests of the validator, in its order.
unfoldable pub check_value : Strtod → Bytes → Bytes → Result (Unit {0})
check_value s name value =
    (if equal name (codes "isolation_level") then ignore (get_isolation_level value) else ok tt)
    >> (if equal name (codes "readonly")
          || equal name (codes "key")
          || equal name (codes "strip_zeros")
          || equal name (codes "nchar")
          || equal name (codes "set_timezone")
        then ignore (get_bool_val name value)
        else ok tt)
    >> (if equal name (codes "dblink") then reject_if (has_quote value) name else ok tt)
    >> (if equal name (codes "schema") then reject_if (has_quote value) name else ok tt)
    >> (if equal name (codes "max_long") then check_max_long value else ok tt)
    >> (if equal name (codes "sample_percent") then check_sample s value else ok tt)
    >> (if equal name (codes "prefetch") then check_prefetch value else ok tt)
    >> (if equal name (codes "lob_prefetch") then check_lob_prefetch value else ok tt)
