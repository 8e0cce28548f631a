-- ===== src/Tests/Options.antt =====
-- The validator at concrete options.
use oracle_fdw.Base.{ℕ, ◌≡◌, refl, false, List, [], ◌∷◌, Bytes, arith}
use oracle_fdw.Result.{ok, err, missing_option, invalid_value}
use oracle_fdw.Text.{codes, decimal}
use oracle_fdw.Fdw.Options.Numbers.{strtol, strtoul}
use oracle_fdw.Fdw.Options.Values.{
  Strtod, check_value, get_bool_val, check_max_long, check_prefetch, check_lob_prefetch,
}
use oracle_fdw.Fdw.Options.{
  foreign_table, server, valid_options, mark_given, check_options, check_required, validate,
}
use oracle_fdw.Fdw.Options.Integers.{check_limits}

-- Numbers without a fraction.
abbrev whole_numbers : Strtod
whole_numbers = record { Double = ℕ; strtod = strtoul; out_of_range = λ n. false }

abbrev table_options : List (Bytes × Bytes)
table_options =
    (codes "schema", codes "HR")
    ∷ (codes "table", codes "EMP")
    ∷ (codes "prefetch", codes "0x100")
    ∷ []

validate-table : validate whole_numbers foreign_table table_options ≡ ok tt
unfolding validate check_options check_required mark_given valid_options check_value check_prefetch
    strtol
validate-table = refl

validate-missing :
    validate whole_numbers foreign_table ((codes "schema", codes "HR") ∷ [])
    ≡ err (missing_option (codes "table"))
unfolding validate check_options check_required mark_given valid_options check_value
validate-missing = refl

validate-quote :
    validate whole_numbers foreign_table ((codes "schema", codes "a\"b") ∷ [])
    ≡ err (invalid_value (codes "schema"))
unfolding validate check_options check_required mark_given valid_options check_value
validate-quote = refl

validate-bool :
    validate whole_numbers server ((codes "dbserver", []) ∷ (codes "nchar", codes "YES") ∷ [])
    ≡ ok tt
unfolding validate check_options check_required mark_given valid_options check_value get_bool_val
validate-bool = refl

check_limits_example :
    (check_prefetch (decimal 10240) ≡ ok tt)
    × (check_lob_prefetch (decimal 10240) ≡ ok tt)
    × (check_max_long (decimal 10240) ≡ ok tt)
check_limits_example = check_limits 10240 (omega arith)
