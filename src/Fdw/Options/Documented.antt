-- ===== src/Fdw/Options/Documented.antt =====
-- The options and their values, as README.oracle_fdw documents them, or, where it names no values, as the
-- messages of the validator do: where each belongs, whether it is required, and what it takes. What a
-- number is, strtol, strtoul and strtod of the C library say.
use oracle_fdw.Base.{ℕ, ◌≤◌, ◌≡◌, ◌⊎◌, Bool, true, false, List, [], ◌∷◌, Bytes, All, length, ◌==◌}
use oracle_fdw.Base.Int.{pos}
use oracle_fdw.Text.{codes}
use oracle_fdw.Jni.Types.{lowercase}
use oracle_fdw.Fdw.Options.Numbers.{Parsed, strtol, strtoul}
use oracle_fdw.Fdw.Options.Values.{Strtod}
use oracle_fdw.Fdw.Options.{Catalog, wrapper, server, user_mapping, foreign_table, attribute}

module _ {ℓ} {A : Type ℓ} where
  -- Some element satisfies `P`.
  abbrev pub Any : (A → Type 0) → List A → Type 0
  Any P [] = true ≡ false
  Any P (x ∷ xs) = P x ⊎ Any P xs

pub data Kind : Type 0 where
  any_text isolation boolean unquoted percent long_length : Kind
  integer : ℕ → ℕ → Kind

pub record Documented : Type 0 where
  pub name : Bytes
  pub context : Catalog
  pub required : Bool
  pub kind : Kind

abbrev row : Bytes → Catalog → Bool → Kind → Documented
row name context required kind = record {
  name = name;
  context = context;
  required = required;
  kind = kind;
}

unfoldable pub documented : List Documented
documented =
    row (codes "nls_lang") wrapper false any_text
    ∷ row (codes "dbserver") server true any_text
    ∷ row (codes "isolation_level") server false isolation
    ∷ row (codes "nchar") server false boolean
    ∷ row (codes "user") user_mapping true any_text
    ∷ row (codes "password") user_mapping true any_text
    ∷ row (codes "dblink") foreign_table false unquoted
    ∷ row (codes "schema") foreign_table false unquoted
    ∷ row (codes "table") foreign_table true any_text
    ∷ row (codes "max_long") foreign_table false long_length
    ∷ row (codes "readonly") foreign_table false boolean
    ∷ row (codes "sample_percent") foreign_table false percent
    ∷ row (codes "prefetch") foreign_table false (integer 1 10240)
    ∷ row (codes "lob_prefetch") foreign_table false (integer 0 536870912)
    ∷ row (codes "key") attribute false boolean
    ∷ row (codes "strip_zeros") attribute false boolean
    ∷ row (codes "set_timezone") server false boolean
    ∷ []

abbrev pub isolation_levels : List Bytes
isolation_levels = codes "serializable" ∷ codes "read_committed" ∷ codes "read_only" ∷ []

abbrev pub switches : List Bytes
switches = codes "on" ∷ codes "yes" ∷ codes "true" ∷ codes "off" ∷ codes "no" ∷ codes "false" ∷ []

-- The text is not empty, all of it is read, and without an error.
abbrev pub IsWhole : {A : Type 0} → Bytes → Parsed A → Type 0
IsWhole value p = (1 ≤ length value) × (p.rest ≡ []) × (p.errno ≡ false)

-- What the values of a kind look like. A value for max_long is what strtoul reads as 1 to 1073741823: it
-- takes a minus for a negation modulo 2 ^ 64, so that there are such numbers with a minus.
abbrev pub Meets : Strtod → Kind → Bytes → Type 0
Meets s any_text value = Unit {0}
Meets s isolation value = Any (λ level. value ≡ level) isolation_levels
Meets s boolean value = Any (λ word. lowercase value ≡ word) switches
Meets s unquoted value = All (λ c. (c == b'"') ≡ false) value
Meets s percent value = let p = s.strtod value in IsWhole value p × (s.out_of_range p.value ≡ false)
Meets s (integer low high) value =
    let p = strtol value in IsWhole value p × ((n : ℕ) × (p.value ≡ pos n) × (low ≤ n) × (n ≤ high))
Meets s long_length value =
    let p = strtoul value in IsWhole value p × (1 ≤ p.value) × (p.value ≤ 1073741823)

-- Each option is documented for the kind of object, with such values, and each one that is required for
-- it is among the options.
pub record IsValid (s : Strtod) (catalog : Catalog) (options : List (Bytes × Bytes)) : Type 0 where
  pub options_valid :
      All
        (λ o. Any (λ d. (d.context ≡ catalog) × (d.name ≡ o.0) × Meets s d.kind o.1) documented)
        options
  pub required_given :
      All
        (λ d. d.context ≡ catalog → d.required ≡ true → Any (λ o. d.name ≡ o.0) options)
        documented
