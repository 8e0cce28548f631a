-- ===== src/Fdw/Options/Validity.antt =====
-- What the validator accepts is described by the table of options.
use oracle_fdw.Base.{
  ◌≡◌, refl, ap, ◌∙◌, sym, Bool, true, false, ◌&&◌, ◌||◌, not, List, [], ◌∷◌, Option, none, some,
  Bytes, All, Bool-cases, inl, inr, if◌then◌else◌,
}
use mathlib.Core.Path.{subst}
use oracle_fdw.Result.{Result, ok, err, fault, ◌>>◌, bind-ok, missing_option}
use oracle_fdw.Fdw.Options.Values.{Strtod, check_value}
use oracle_fdw.Fdw.Options.{
  Catalog, same_catalog, FdwOption, valid_options, is_entry, Entry, not_given, before, mark_given,
  on_found, check_options, check_required, validate,
}

-- Some entry of the table is the one for the name.
abbrev pub known : Catalog → Bytes → List FdwOption → Bool
known catalog name [] = false
known catalog name (e ∷ es) = is_entry catalog name e || known catalog name es

-- Some option is the one for the entry.
abbrev pub named : Catalog → FdwOption → List (Bytes × Bytes) → Bool
named catalog e [] = false
named catalog e ((name, value) ∷ options) = is_entry catalog name e || named catalog e options

abbrev pub is_required : Catalog → FdwOption → Bool
is_required catalog e = same_catalog catalog e.optcontext && e.optrequired

-- Each option stands in the table and its value passes the tests; each required entry is given.
pub record IsAccepted (s : Strtod) (catalog : Catalog) (options : List (Bytes × Bytes))
    : Type 0 where
  pub options_valid :
      All (λ o. (known catalog o.0 valid_options ≡ true) × (check_value s o.0 o.1 ≡ ok tt)) options
  pub required_given :
      All (λ e. is_required catalog e ≡ true → named catalog e options ≡ true) valid_options

abbrev pub table : List Entry → List FdwOption
table [] = []
table ((e, given) ∷ entries) = e ∷ table entries

pub table-not_given : (es : List FdwOption) → table (not_given es) ≡ es
table-not_given [] = refl
table-not_given (e ∷ es) = ap (λ t. e ∷ t) (table-not_given es)

-- Only entries with the property are marked.
Marked : (FdwOption → Type 0) → List Entry → Type 0
Marked P entries = All (λ x. x.1 ≡ true → P x.0) entries

before-some :
    (x : Entry) (m : Option (List Entry)) (marked : List Entry)
    → before x m ≡ some marked
    → (es : List Entry) × (m ≡ some es) × (marked ≡ x ∷ es)
before-some x none marked h = absurd (cc h)
before-some x (some es) marked h = (es, refl, cc h)

pub or-left : (a b : Bool) → a ≡ true → a || b ≡ true
or-left a b h = rw h refl

pub or-right : (a b : Bool) → b ≡ true → a || b ≡ true
or-right true b h = refl
or-right false b h = h

mark_given_lem :
    (P : FdwOption → Type 0) (catalog : Catalog) (name : Bytes) (entries marked : List Entry)
    → mark_given catalog name entries ≡ some marked
    → Marked P entries
    → ((e : FdwOption) → is_entry catalog name e ≡ true → P e)
    → (known catalog name (table entries) ≡ true) × (table marked ≡ table entries) × Marked P marked
unfolding mark_given Marked
mark_given_lem P catalog name [] marked h ms p = absurd (cc h)
mark_given_lem P catalog name ((e, given) ∷ entries) marked h (m, ms) p =
    elim (Bool-cases (is_entry catalog name e)) [
      | inl c ↦
          let same : (e, true) ∷ entries ≡ marked = cc (rw c at h) in
          let (t, q) =
            subst (λ l. (table l ≡ e ∷ table entries) × Marked P l) same
              (refl, ((λ g. p e c), ms)) in
          (or-left _ _ c, t, q)
      | inr c ↦
          let (es, f, eq) =
            before-some (e, given) (mark_given catalog name entries) marked (rw c at h) in
          let (k, t, q) = mark_given_lem P catalog name entries es f ms p in
          let (u, r) =
            subst (λ l. (table l ≡ e ∷ table entries) × Marked P l) (sym eq)
              (ap (λ l. e ∷ l) t, (m, q)) in
          (or-right _ _ k, u, r)
    ]

then-ok :
    (m : Result (Unit {0})) (k : Result (List Entry)) (final : List Entry)
    → m >> k ≡ ok final
    → (m ≡ ok tt) × (k ≡ ok final)
then-ok (ok tt) k final h = (refl, h)
then-ok (err e) k final h = absurd (cc h)
then-ok (fault e) k final h = absurd (cc h)

on_found-ok :
    (name : Bytes) (tests : Result (Unit {0})) (next : List Entry → Result (List Entry))
    (m : Option (List Entry)) (final : List Entry)
    → on_found name tests next m ≡ ok final
    → (marked : List Entry) × (m ≡ some marked) × (tests ≡ ok tt) × (next marked ≡ ok final)
on_found-ok name tests next none final h = absurd (cc h)
on_found-ok name tests next (some marked) final h =
    let (t, n) = then-ok tests (next marked) final h in (marked, refl, t, n)

check_options_lem :
    (P : FdwOption → Type 0) (s : Strtod) (catalog : Catalog) (entries : List Entry)
    (options : List (Bytes × Bytes)) (final : List Entry)
    → check_options s catalog entries options ≡ ok final
    → Marked P entries
    → ((e : FdwOption) → named catalog e options ≡ true → P e)
    → All
        (λ o. (known catalog o.0 (table entries) ≡ true) × (check_value s o.0 o.1 ≡ ok tt))
        options
      × (table final ≡ table entries)
      × Marked P final
unfolding check_options
check_options_lem P s catalog entries [] final h ms p =
    let same : entries ≡ final = cc h in (tt, ap table (sym same), subst (Marked P) same ms)
check_options_lem P s catalog entries ((name, value) ∷ options) final h ms p =
    let (marked, e, tests, next) = on_found-ok name _ _ (mark_given catalog name entries) final h in
    let (k, t, q) =
      mark_given_lem P catalog name entries marked e ms
        (λ x c. p x (or-left (is_entry catalog name x) (named catalog x options) c)) in
    let (all, u, r) =
      check_options_lem P s catalog marked options final next q
        (λ x c. p x (or-right (is_entry catalog name x) (named catalog x options) c)) in
    (
      (
        (k, tests),
        subst
            (λ l. All (λ o. (known catalog o.0 l ≡ true) × (check_value s o.0 o.1 ≡ ok tt)) options)
            t all,
      ),
      u ∙ t,
      r,
    )

required-step :
    (required given : Bool) (name : Bytes) (rest : Result (Unit {0}))
    → (if required && not given then err (missing_option name) else rest) ≡ ok tt
    → (required ≡ true → given ≡ true) × (rest ≡ ok tt)
required-step true true name rest h = ((λ r. refl), h)
required-step true false name rest h = absurd (cc h)
required-step false given name rest h = ((λ r. absurd (cc r)), h)

required_lem :
    (P : FdwOption → Type 0) (catalog : Catalog) (entries : List Entry)
    → check_required catalog entries ≡ ok tt
    → Marked P entries
    → All (λ e. is_required catalog e ≡ true → P e) (table entries)
unfolding check_required Marked
required_lem P catalog [] h ms = tt
required_lem P catalog ((e, given) ∷ entries) h (m, ms) =
    let (g, k) =
      required-step (is_required catalog e) given e.optname (check_required catalog entries) h in
    ((λ r. m (g r)), required_lem P catalog entries k ms)

Marked-not_given : (P : FdwOption → Type 0) (es : List FdwOption) → Marked P (not_given es)
unfolding Marked
Marked-not_given P [] = tt
Marked-not_given P (e ∷ es) = ((λ g. absurd (cc g)), Marked-not_given P es)

-- What the validator accepts is valid: each option belongs to the kind of object, its value passes the
-- tests for that option, and no required option is missing.
pub validate-IsAccepted :
    (s : Strtod) (catalog : Catalog) (options : List (Bytes × Bytes))
    → validate s catalog options ≡ ok tt
    → IsAccepted s catalog options
unfolding validate
validate-IsAccepted s catalog options h =
    let P : FdwOption → Type 0 = λ e. named catalog e options ≡ true in
    let start = not_given valid_options in
    let (final, c, r) =
      bind-ok (check_options s catalog start options) (check_required catalog) tt h in
    let (all, t, q) =
      check_options_lem P s catalog start options final c (Marked-not_given P valid_options)
        (λ e n. n) in
    let same = table-not_given valid_options in
    record {
      options_valid =
          subst
            (λ l. All (λ o. (known catalog o.0 l ≡ true) × (check_value s o.0 o.1 ≡ ok tt)) options)
            same all;
      required_given =
          subst (All (λ e. is_required catalog e ≡ true → P e)) (t ∙ same)
            (required_lem P catalog final r q);
    }
