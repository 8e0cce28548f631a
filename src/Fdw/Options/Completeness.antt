-- ===== src/Fdw/Options/Completeness.antt =====
-- The validator accepts every list of options that the table of options describes.
use oracle_fdw.Base.{
  ◌≡◌, refl, ◌∙◌, sym, Bool, true, false, ◌&&◌, ◌||◌, not, ◌⊎◌, List, [], ◌∷◌, Bytes, All,
  Bool-cases, inl, inr, if◌then◌else◌,
}
use mathlib.Core.Path.{subst}
use oracle_fdw.Result.{Result, ok, err, missing_option}
use oracle_fdw.Fdw.Options.Values.{Strtod, check_value}
use oracle_fdw.Fdw.Options.{
  Catalog, FdwOption, valid_options, is_entry, Entry, not_given, check_options, check_required,
  validate,
}
use oracle_fdw.Fdw.Options.Validity.{known, named, is_required, IsAccepted, table, table-not_given}
use oracle_fdw.Fdw.Options.Marking.{
  distinct, distinct-valid_options, Flagged, Flagged-imp, Known-or, mark_given_total, or-no-left,
}

split_named :
    (P : FdwOption → Type 0) (catalog : Catalog) (name : Bytes) (options : List (Bytes × Bytes))
    (e : FdwOption)
    → P e ⊎ (is_entry catalog name e || named catalog e options ≡ true)
    → Known-or P catalog name e ⊎ (named catalog e options ≡ true)
split_named P catalog name options e (inl p) = inl (inl p)
split_named P catalog name options e (inr n) = elim (Bool-cases (is_entry catalog name e)) [
  | inl c ↦ inl (inr c)
  | inr c ↦ inr (or-no-left (is_entry catalog name e) _ c n)
]

check_options_total :
    (P : FdwOption → Type 0) (s : Strtod) (catalog : Catalog) (entries : List Entry)
    (options : List (Bytes × Bytes))
    → All
        (λ o. (known catalog o.0 (table entries) ≡ true) × (check_value s o.0 o.1 ≡ ok tt))
        options
    → distinct (table entries) ≡ true
    → Flagged P entries
    → (final : List Entry) × (check_options s catalog entries options ≡ ok final)
      × (table final ≡ table entries)
      × Flagged (λ e. P e ⊎ (named catalog e options ≡ true)) final
unfolding check_options
check_options_total P s catalog entries [] h d f = (
  entries,
  refl,
  refl,
  Flagged-imp P (λ e. P e ⊎ (named catalog e [] ≡ true)) entries
      (λ e q. elim q [ inl p ↦ p | inr n ↦ absurd (cc n) ]) f,
)
check_options_total P s catalog entries ((name, value) ∷ options) ((k, v), hs) d f =
    let (marked, m, t, q) = mark_given_total P catalog name entries k d f in
    let (final, c, u, r) =
      check_options_total (Known-or P catalog name) s catalog marked options
        (subst
          (λ l. All (λ o. (known catalog o.0 l ≡ true) × (check_value s o.0 o.1 ≡ ok tt)) options)
          (sym t) hs)
        (subst (λ l. distinct l ≡ true) (sym t) d) q in
    (
      final,
      rw m (rw v c),
      u ∙ t,
      Flagged-imp _ _ final (λ e x. split_named P catalog name options e x) r,
    )

required_present :
    (required given : Bool) (name : Bytes) (rest : Result (Unit {0}))
    → (required ≡ true → given ≡ true)
    → rest ≡ ok tt
    → (if required && not given then err (missing_option name) else rest) ≡ ok tt
required_present true given name rest g h = rw (g refl) h
required_present false given name rest g h = h

check_required_total :
    (P : FdwOption → Type 0) (catalog : Catalog) (entries : List Entry)
    → All (λ e. is_required catalog e ≡ true → P e) (table entries)
    → Flagged P entries
    → check_required catalog entries ≡ ok tt
unfolding check_required
check_required_total P catalog [] r f = refl
check_required_total P catalog ((e, given) ∷ entries) (r, rs) (f, fs) =
    required_present (is_required catalog e) given e.optname (check_required catalog entries)
      (λ q. f (r q)) (check_required_total P catalog entries rs fs)

Flagged-not_given : (es : List FdwOption) → Flagged (λ e. false ≡ true) (not_given es)
Flagged-not_given [] = tt
Flagged-not_given (e ∷ es) = ((λ p. p), Flagged-not_given es)

-- The validator accepts a list in which each option belongs to the kind of object and has a value that
-- passes its tests, and in which no required option is missing.
pub IsAccepted-validate :
    (s : Strtod) (catalog : Catalog) (options : List (Bytes × Bytes))
    → IsAccepted s catalog options
    → validate s catalog options ≡ ok tt
unfolding validate
IsAccepted-validate s catalog options h =
    let none_given : FdwOption → Type 0 = λ e. false ≡ true in
    let same = table-not_given valid_options in
    let start = not_given valid_options in
    let (final, c, t, f) =
      check_options_total none_given s catalog start options
        (subst
          (λ l. All (λ o. (known catalog o.0 l ≡ true) × (check_value s o.0 o.1 ≡ ok tt)) options)
          (sym same) h.options_valid)
        (subst (λ l. distinct l ≡ true) (sym same) distinct-valid_options)
        (Flagged-not_given valid_options) in
    let given : FdwOption → Type 0 = λ e. named catalog e options ≡ true in
    rw c (
      check_required_total given catalog final
        (subst (All (λ e. is_required catalog e ≡ true → given e)) (sym (t ∙ same))
          h.required_given)
        (Flagged-imp _ given final (λ e n. inr n) f))
