-- ===== src/Fdw/Options/Conformance.antt =====
-- The validator accepts what the documentation of the options describes.
use oracle_fdw.Base.{◌≡◌, true, List, Bytes}
use oracle_fdw.Result.{ok}
use oracle_fdw.Fdw.Options.{Catalog, FdwOption, valid_options}
use oracle_fdw.Fdw.Options.Values.{Strtod, check_value}
use oracle_fdw.Fdw.Options.Validity.{known, named, is_required}
use oracle_fdw.Fdw.Options.Documented.{Any, Documented, documented}
use oracle_fdw.Fdw.Options.Described.{IsOption}

module _ (s : Strtod) (catalog : Catalog) where
  -- An option of the table, and one of the documentation.
  abbrev IsKnown : Bytes × Bytes → Type 0
  IsKnown o = (known catalog o.0 valid_options ≡ true) × (check_value s o.0 o.1 ≡ ok tt)

  abbrev IsDescribed : Bytes × Bytes → Type 0
  IsDescribed o = Any (IsOption s catalog o.0 o.1) documented

module _ (catalog : Catalog) (options : List (Bytes × Bytes)) where
  abbrev IsEntryGiven : FdwOption → Type 0
  IsEntryGiven e = is_required catalog e ≡ true → named catalog e options ≡ true

  abbrev IsGiven : Documented → Type 0
  IsGiven d = d.context ≡ catalog → d.required ≡ true → Any (λ o. d.name ≡ o.0) options
