-- ===== src/Fdw/Options/Marking.antt =====
-- An option that stands in the table is found, and its entry is the one that is marked.
use oracle_fdw.Base.{
  ◌≡◌, refl, ap, sym, Bool, true, false, ◌&&◌, ◌||◌, not, ◌⊎◌, List, [], ◌∷◌, some, Bytes, All,
  Bool-cases, inl, inr, ◌==◌, arith,
}
use oracle_fdw.Jni.Types.{equal}
use oracle_fdw.Fdw.Options.{
  Catalog, wrapper, server, user_mapping, foreign_table, attribute, same_catalog, FdwOption,
  valid_options, is_entry, Entry, mark_given,
}
use oracle_fdw.Fdw.Options.Validity.{known, table, or-left}

-- No entry behind another one is for the same option.
abbrev pub distinct : List FdwOption → Bool
distinct [] = true
distinct (e ∷ es) = not (known e.optcontext e.optname es) && distinct es

pub distinct-valid_options : distinct valid_options ≡ true
unfolding valid_options
distinct-valid_options = refl

pub both : (a b : Bool) → a && b ≡ true → (a ≡ true) × (b ≡ true)
both true b h = (refl, h)
both false b h = absurd (cc h)

not-true : (b : Bool) → not b ≡ true → b ≡ false
not-true true h = absurd (cc h)
not-true false h = refl

pub equal-eq : (s t : Bytes) → equal s t ≡ true → s ≡ t
equal-eq [] [] h = refl
equal-eq [] (b ∷ t) h = absurd (cc h)
equal-eq (a ∷ s) [] h = absurd (cc h)
equal-eq (a ∷ s) (b ∷ t) h =
    let (e, k) = both (a == b) (equal s t) h in
    let heads : a ≡ b = ground (arith, e) in let tails = equal-eq s t k in cc (heads, tails)

pub same_catalog-eq : (a b : Catalog) → same_catalog a b ≡ true → a ≡ b
same_catalog-eq wrapper wrapper h = refl
same_catalog-eq server server h = refl
same_catalog-eq user_mapping user_mapping h = refl
same_catalog-eq foreign_table foreign_table h = refl
same_catalog-eq attribute attribute h = refl
same_catalog-eq _ _ h = absurd (cc h)

-- The other entries are not for an option that has one.
known-distinct :
    (catalog : Catalog) (name : Bytes) (e : FdwOption) (es : List FdwOption)
    → is_entry catalog name e ≡ true
    → not (known e.optcontext e.optname es) ≡ true
    → known catalog name es ≡ false
known-distinct catalog name e es h d =
    let (c, n) = both (same_catalog catalog e.optcontext) (equal e.optname name) h in
    rw (same_catalog-eq catalog e.optcontext c)
      (rw (sym (equal-eq e.optname name n)) (not-true (known e.optcontext e.optname es) d))

-- Every entry with the property is marked.
abbrev pub Flagged : (FdwOption → Type 0) → List Entry → Type 0
Flagged P entries = All (λ x. P x.0 → x.1 ≡ true) entries

pub Flagged-imp :
    (P Q : FdwOption → Type 0) (entries : List Entry)
    → ((e : FdwOption) → Q e → P e)
    → Flagged P entries
    → Flagged Q entries
Flagged-imp P Q [] f h = tt
Flagged-imp P Q (x ∷ entries) f (h, hs) = ((λ q. h (f x.0 q)), Flagged-imp P Q entries f hs)

abbrev pub Known-or : (FdwOption → Type 0) → Catalog → Bytes → FdwOption → Type 0
Known-or P catalog name e = P e ⊎ (is_entry catalog name e ≡ true)

pub or-no-left : (a b : Bool) → a ≡ false → a || b ≡ true → b ≡ true
or-no-left true b e h = absurd (cc e)
or-no-left false b e h = h

or-false-right : (a b : Bool) → a || b ≡ false → b ≡ false
or-false-right true b h = absurd (cc h)
or-false-right false b h = h

-- The entries behind the one that was found are not for the option.
Flagged-others :
    (P : FdwOption → Type 0) (catalog : Catalog) (name : Bytes) (entries : List Entry)
    → known catalog name (table entries) ≡ false
    → Flagged P entries
    → Flagged (Known-or P catalog name) entries
Flagged-others P catalog name [] k h = tt
Flagged-others P catalog name ((e, given) ∷ entries) k (h, hs) = (
  (λ q. elim q [
    | inl p ↦ h p
    | inr i ↦ absurd (cc (or-left _ (known catalog name (table entries)) i, k))
  ]),
  Flagged-others P catalog name entries (or-false-right (is_entry catalog name e) _ k) hs,
)

pub mark_given_total :
    (P : FdwOption → Type 0) (catalog : Catalog) (name : Bytes) (entries : List Entry)
    → known catalog name (table entries) ≡ true
    → distinct (table entries) ≡ true
    → Flagged P entries
    → (marked : List Entry) × (mark_given catalog name entries ≡ some marked)
      × (table marked ≡ table entries)
      × Flagged (Known-or P catalog name) marked
unfolding mark_given
mark_given_total P catalog name [] k d h = absurd (cc k)
mark_given_total P catalog name ((e, given) ∷ entries) k d (h, hs) =
    let (alone, ds) =
      both (not (known e.optcontext e.optname (table entries))) (distinct (table entries)) d in
    elim (Bool-cases (is_entry catalog name e)) [
      | inl c ↦ (
        (e, true) ∷ entries,
        rw c refl,
        refl,
        (
          (λ q. refl),
          Flagged-others P catalog name entries
              (known-distinct catalog name e (table entries) c alone) hs,
        ),
      )
      | inr c ↦
          let (es, f, t, q) =
            mark_given_total P catalog name entries (or-no-left (is_entry catalog name e) _ c k) ds
              hs in
          (
            (e, given) ∷ es,
            rw c (rw f refl),
            ap (λ l. e ∷ l) t,
            ((λ x. elim x [ inl p ↦ h p | inr i ↦ absurd (cc (i, c)) ]), q),
          )
    ]
