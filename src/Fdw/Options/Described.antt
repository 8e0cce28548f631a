-- ===== src/Fdw/Options/Described.antt =====
-- The validator against the documentation of the options.
use oracle_fdw.Base.{
  ℕ, zero, suc, ◌≡◌, ◌↔◌, refl, ◌∙◌, sym, true, List, [], ◌∷◌, Bytes, All, map, Bool-cases, inl,
  inr,
}
use mathlib.Core.Path.{subst}
use oracle_fdw.Result.{Result, ok, err, fault, ◌>>◌}
use oracle_fdw.Text.{codes}
use oracle_fdw.Jni.Types.{equal}
use oracle_fdw.Jni.Sessions.Counting.{equal_self}
use oracle_fdw.Fdw.Options.{
  Catalog, wrapper, server, user_mapping, foreign_table, attribute, same_catalog, FdwOption,
  is_entry, valid_options,
}
use oracle_fdw.Fdw.Options.Values.{
  Strtod, has_quote, reject_if, ignore, get_bool_val, get_isolation_level, check_max_long,
  check_sample, check_prefetch, check_value,
}
use oracle_fdw.Fdw.Options.Validity.{known, named, or-left, or-right}
use oracle_fdw.Fdw.Options.Marking.{both, equal-eq, same_catalog-eq}
use oracle_fdw.Fdw.Options.Documented.{Any, Documented, boolean, Meets, documented}
use oracle_fdw.Fdw.Options.Readings.{
  get_bool_val-Meets, get_isolation_level-Meets, has_quote-Meets, check_max_long-Meets,
  check_sample-Meets, check_prefetch-Meets, check_lob_prefetch-Meets,
}

-- Tests that do nothing behind a test.
abbrev after : ℕ → Result (Unit {0}) → Result (Unit {0})
after zero m = m
after (suc n) m = after n m >> ok tt

ok_behind : (m : Result (Unit {0})) → (m >> ok tt) ≡ m
ok_behind (ok u) = refl
ok_behind (err e) = refl
ok_behind (fault e) = refl

after_lem : (n : ℕ) (m : Result (Unit {0})) → after n m ≡ m
after_lem zero m = refl
after_lem (suc n) m = ok_behind (after n m) ∙ after_lem n m

along : {A : Type 0} (n : ℕ) (m : Result (Unit {0})) → (m ≡ ok tt) ↔ A → (after n m ≡ ok tt) ↔ A
along n m (there, back) = ((λ h. there (sym (after_lem n m) ∙ h)), (λ a. after_lem n m ∙ back a))

-- The tests for the name of the row accept what the row says.
abbrev pub IsTested : Strtod → Documented → Type 0
IsTested s d = (value : Bytes) → (check_value s d.name value ≡ ok tt) ↔ Meets s d.kind value

pub documented-IsTested : (s : Strtod) → All (IsTested s) documented
unfolding documented check_value
documented-IsTested s =
    let text : (value : Bytes) → (ok tt ≡ ok tt) ↔ Unit {0} = λ value. ((λ h. tt), (λ u. refl)) in
    let switch : (name value : Bytes)
        → (after 6 (ignore (get_bool_val name value)) ≡ ok tt) ↔ Meets s boolean value =
      λ name value. along 6 (ignore (get_bool_val name value)) (get_bool_val-Meets s name value) in
    (
      (text),
      (
        (text),
        (
          (λ value.
              along 7 (ignore (get_isolation_level value)) (get_isolation_level-Meets s value)),
          (
            (switch (codes "nchar")),
            (
              (text),
              (
                (text),
                (
                  (λ value.
                      along 5 (reject_if (has_quote value) (codes "dblink"))
                        (has_quote-Meets s (codes "dblink") value)),
                  (
                    (λ value.
                        along 4 (reject_if (has_quote value) (codes "schema"))
                          (has_quote-Meets s (codes "schema") value)),
                    (
                      (text),
                      (
                        (λ value. along 3 (check_max_long value) (check_max_long-Meets s value)),
                        (
                          (switch (codes "readonly")),
                          (
                            (λ value. along 2 (check_sample s value) (check_sample-Meets s value)),
                            (
                              (λ value.
                                  along 1 (check_prefetch value) (check_prefetch-Meets s value)),
                              (
                                (check_lob_prefetch-Meets s),
                                (
                                  (switch (codes "key")),
                                  (
                                    (switch (codes "strip_zeros")),
                                    ((switch (codes "set_timezone")), tt),
                                  ),
                                ),
                              ),
                            ),
                          ),
                        ),
                      ),
                    ),
                  ),
                ),
              ),
            ),
          ),
        ),
      ),
    )

-- The entry of valid_options for a row.
abbrev pub entry_of : Documented → FdwOption
entry_of d = record { optname = d.name; optcontext = d.context; optrequired = d.required }

pub entries_documented : map entry_of documented ≡ valid_options
unfolding documented valid_options
entries_documented = refl

pub same_catalog_self : (c : Catalog) → same_catalog c c ≡ true
same_catalog_self wrapper = refl
same_catalog_self server = refl
same_catalog_self user_mapping = refl
same_catalog_self foreign_table = refl
same_catalog_self attribute = refl

-- The entry for an option is the one with its name and its kind of object.
is_entry-names :
    (catalog : Catalog) (name : Bytes) (d : Documented)
    → (is_entry catalog name (entry_of d) ≡ true) ↔ ((d.context ≡ catalog) × (d.name ≡ name))
is_entry-names catalog name d = (
  (λ h.
      let (c, n) = both (same_catalog catalog d.context) (equal d.name name) h in
      (sym (same_catalog-eq catalog d.context c), equal-eq d.name name n)),
  (λ (c, n). rw (sym c) (rw (sym n) (rw (same_catalog_self d.context) (equal_self d.name)))),
)

abbrev pub IsOption : Strtod → Catalog → Bytes → Bytes → Documented → Type 0
IsOption s catalog name value d = (d.context ≡ catalog) × (d.name ≡ name) × Meets s d.kind value

-- An option that the table knows and whose value passes the tests is documented.
pub known-Any :
    (s : Strtod) (catalog : Catalog) (name value : Bytes) (ds : List Documented)
    → All (IsTested s) ds
    → known catalog name (map entry_of ds) ≡ true
    → check_value s name value ≡ ok tt
    → Any (IsOption s catalog name value) ds
known-Any s catalog name value [] ts k h = absurd (cc k)
known-Any s catalog name value (d ∷ ds) (t, ts) k h =
    let (out, into) = is_entry-names catalog name d in
    elim (Bool-cases (is_entry catalog name (entry_of d))) [
      | inl e ↦
          let (c, n) = out e in
          let (there, back) = t value in
          inl (c, n, there (subst (λ x. check_value s x value ≡ ok tt) (sym n) h))
      | inr e ↦ inr (known-Any s catalog name value ds ts (rw e at k) h)
    ]

pub Any-known :
    (s : Strtod) (catalog : Catalog) (name value : Bytes) (ds : List Documented)
    → All (IsTested s) ds
    → Any (IsOption s catalog name value) ds
    → (known catalog name (map entry_of ds) ≡ true) × (check_value s name value ≡ ok tt)
Any-known s catalog name value [] ts h = absurd (cc h)
Any-known s catalog name value (d ∷ ds) (t, ts) (inl (c, n, m)) =
    let (out, into) = is_entry-names catalog name d in
    let (there, back) = t value in
    (or-left _ _ (into (c, n)), subst (λ x. check_value s x value ≡ ok tt) n (back m))
Any-known s catalog name value (d ∷ ds) (t, ts) (inr h) =
    let (k, v) = Any-known s catalog name value ds ts h in (or-right _ _ k, v)

pub named-Any :
    (catalog : Catalog) (d : Documented) (options : List (Bytes × Bytes))
    → named catalog (entry_of d) options ≡ true
    → Any (λ o. d.name ≡ o.0) options
named-Any catalog d [] h = absurd (cc h)
named-Any catalog d ((name, value) ∷ options) h =
    let (out, into) = is_entry-names catalog name d in
    elim (Bool-cases (is_entry catalog name (entry_of d))) [
      | inl e ↦ let (c, n) = out e in inl n
      | inr e ↦ inr (named-Any catalog d options (rw e at h))
    ]

pub Any-named :
    (catalog : Catalog) (d : Documented) (options : List (Bytes × Bytes))
    → d.context ≡ catalog
    → Any (λ o. d.name ≡ o.0) options
    → named catalog (entry_of d) options ≡ true
Any-named catalog d [] c h = absurd (cc h)
Any-named catalog d ((name, value) ∷ options) c (inl n) =
    let (out, into) = is_entry-names catalog name d in or-left _ _ (into (c, n))
Any-named catalog d ((name, value) ∷ options) c (inr h) =
    or-right _ _ (Any-named catalog d options c h)
