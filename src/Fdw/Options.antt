-- ===== src/Fdw/Options.antt =====
-- oracle_fdw.c, valid_options and oracle_fdw_validator: the options of the wrapper's objects.
pub mod Values
pub mod Numbers
pub mod Integers
pub mod Validity
pub mod Marking
pub mod Completeness
pub mod Documented
pub mod Readings
pub mod Described
pub mod Conformance
use oracle_fdw.Base.{
  ℕ, Bool, true, false, ◌&&◌, ◌||◌, not, List, [], ◌∷◌, ◌++◌, Option, none, some, Bytes,
  if◌then◌else◌,
}
use oracle_fdw.Result.{Result, ok, err, ◌>>=◌, ◌>>◌, invalid_option, missing_option}
use oracle_fdw.Text.{codes}
use oracle_fdw.Jni.Types.{equal}
use Values.{Strtod, check_value}

-- The catalogs: ForeignDataWrapperRelationId, ForeignServerRelationId, UserMappingRelationId,
-- ForeignTableRelationId, AttributeRelationId.
pub data Catalog : Type 0 where
  wrapper server user_mapping foreign_table attribute : Catalog

abbrev pub same_catalog : Catalog → Catalog → Bool
same_catalog wrapper wrapper = true
same_catalog server server = true
same_catalog user_mapping user_mapping = true
same_catalog foreign_table foreign_table = true
same_catalog attribute attribute = true
same_catalog _ _ = false

-- OracleFdwOption
pub record FdwOption : Type 0 where
  pub optname : Bytes
  pub optcontext : Catalog
  pub optrequired : Bool

abbrev option : Bytes → Catalog → Bool → FdwOption
option name context required = record {
  optname = name;
  optcontext = context;
  optrequired = required;
}

unfoldable pub valid_options : List FdwOption
valid_options =
    option (codes "nls_lang") wrapper false
    ∷ option (codes "dbserver") server true
    ∷ option (codes "isolation_level") server false
    ∷ option (codes "nchar") server false
    ∷ option (codes "user") user_mapping true
    ∷ option (codes "password") user_mapping true
    ∷ option (codes "dblink") foreign_table false
    ∷ option (codes "schema") foreign_table false
    ∷ option (codes "table") foreign_table true
    ∷ option (codes "max_long") foreign_table false
    ∷ option (codes "readonly") foreign_table false
    ∷ option (codes "sample_percent") foreign_table false
    ∷ option (codes "prefetch") foreign_table false
    ∷ option (codes "lob_prefetch") foreign_table false
    ∷ option (codes "key") attribute false
    ∷ option (codes "strip_zeros") attribute false
    ∷ option (codes "set_timezone") server false
    ∷ []

-- The entry of the table that an option stands for.
abbrev pub is_entry : Catalog → Bytes → FdwOption → Bool
is_entry catalog name entry = same_catalog catalog entry.optcontext && equal entry.optname name

-- An element of option_given beside its entry.
abbrev pub Entry : Type 0
Entry = FdwOption × Bool

abbrev pub not_given : List FdwOption → List Entry
not_given [] = []
not_given (entry ∷ entries) = (entry, false) ∷ not_given entries

abbrev before : Entry → Option (List Entry) → Option (List Entry)
before e none = none
before e (some es) = some (e ∷ es)

-- The search: the first entry for the option is marked as given.
unfoldable pub mark_given : Catalog → Bytes → List Entry → Option (List Entry)
mark_given catalog name [] = none
mark_given catalog name ((entry, given) ∷ entries) =
    let rest = mark_given catalog name entries in
    if is_entry catalog name entry
    then some ((entry, true) ∷ entries)
    else before (entry, given) rest

-- The tests of an option behind the search, and the other options.
abbrev on_found :
    Bytes
    → Result (Unit {0})
    → (List Entry → Result (List Entry))
    → Option (List Entry)
    → Result (List Entry)
on_found name tests next none = err (invalid_option name)
on_found name tests next (some marked) = tests >> next marked

-- The first loop of the validator.
unfoldable pub check_options :
    (s : Strtod) → Catalog → List Entry → List (Bytes × Bytes) → Result (List Entry)
check_options s catalog entries [] = ok entries
check_options s catalog entries ((name, value) ∷ options) =
    on_found name (check_value s name value) (λ marked. check_options s catalog marked options)
      (mark_given catalog name entries)

-- The second loop.
unfoldable pub check_required : Catalog → List Entry → Result (Unit {0})
check_required catalog [] = ok tt
check_required catalog ((entry, given) ∷ entries) =
    let rest = check_required catalog entries in
    if same_catalog catalog entry.optcontext && entry.optrequired && not given
    then err (missing_option entry.optname)
    else rest

-- oracle_fdw_validator
unfoldable pub validate : Strtod → Catalog → List (Bytes × Bytes) → Result (Unit {0})
validate s catalog options =
    check_options s catalog (not_given valid_options) options >>= check_required catalog
