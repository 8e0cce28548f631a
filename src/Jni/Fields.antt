-- ===== src/Jni/Fields.antt =====
-- oracle_utils_jni.c, splitFields: the fields of a row that Java describes, between the separators
-- with the code 31.
use oracle_fdw.Base.{
  ℕ, zero, suc, ◌-◌, ◌≤◌, ◌<◌, ◌≡◌, refl, ap, ◌∙◌, false, List, [], ◌∷◌, ◌++◌, Bytes, length,
  length-append, All, ◌==◌, if◌then◌else◌, arith, Bool-cases, inl, inr,
}

-- JNI_FIELD_SEP
abbrev pub field_sep : ℕ
field_sep = 31

-- The character goes to the front of the first field.
abbrev push : ℕ → List Bytes → List Bytes
push c [] = (c ∷ []) ∷ []
push c (f ∷ fs) = (c ∷ f) ∷ fs

-- The fields from a position inside one: `n` more can begin. The last one takes the rest of the row.
unfoldable pub split_from : Bytes → ℕ → List Bytes
split_from [] n = [] ∷ []
split_from (c ∷ row) zero = (c ∷ row) ∷ []
split_from (c ∷ row) (suc n) =
    let is_sep = c == field_sep in
    let later = split_from row (if is_sep then n else suc n) in
    if is_sep then [] ∷ later else push c later

-- `n` empty fields
unfoldable pub empty_fields : ℕ → List Bytes
empty_fields zero = []
empty_fields (suc n) = [] ∷ empty_fields n

-- A `max_fields` below zero counts as zero.
unfoldable pub split_fields : Bytes → ℕ → List Bytes
split_fields row zero = []
split_fields row (suc n) =
    let fields = split_from row n in fields ++ empty_fields (suc n - length fields)

-- The description: a row is its fields with separators between them.
abbrev pub join_fields : List Bytes → Bytes
join_fields [] = []
join_fields (f ∷ []) = f
join_fields (f ∷ fs) = f ++ (field_sep ∷ join_fields fs)

abbrev pub HasNoSep : Bytes → Type 0
HasNoSep f = All (λ c. (c == field_sep) ≡ false) f

length-empty_fields : (n : ℕ) → length (empty_fields n) ≡ n
unfolding empty_fields
length-empty_fields zero = refl
length-empty_fields (suc n) = ap suc (length-empty_fields n)

length-push : (c : ℕ) (fs : List Bytes) → 0 < length fs → length (push c fs) ≡ length fs
length-push c [] h = absurd (omega (arith, h))
length-push c (f ∷ fs) h = refl

length-split_from :
    (row : Bytes) (n : ℕ) → (0 < length (split_from row n)) × (length (split_from row n) ≤ suc n)
unfolding split_from
length-split_from [] n = (omega arith, omega arith)
length-split_from (c ∷ row) zero = (omega arith, omega arith)
length-split_from (c ∷ row) (suc n) = elim (Bool-cases (c == field_sep)) [
  | inl e ↦ rw e (omega arith, omega (arith, (length-split_from row n).1))
  | inr e ↦ rw e (
      rw (length-push c (split_from row (suc n)) (length-split_from row (suc n)).0)
        (length-split_from row (suc n)))
]

-- splitFields fills all `max_fields` entries of its array, and no other, whatever the row.
pub length-split_fields : (row : Bytes) (n : ℕ) → length (split_fields row n) ≡ n
unfolding split_fields
length-split_fields row zero = refl
length-split_fields row (suc n) = omega (
  arith,
  length-append (split_from row n) (empty_fields (suc n - length (split_from row n))),
  length-empty_fields (suc n - length (split_from row n)),
  (length-split_from row n).1,
)

split_from-field :
    (f rest : Bytes) (n : ℕ)
    → HasNoSep f
    → split_from (f ++ (field_sep ∷ rest)) (suc n) ≡ f ∷ split_from rest n
unfolding split_from
split_from-field [] rest n h = refl
split_from-field (c ∷ f) rest n h = rw h.0 (rw (split_from-field f rest n h.1) refl)

split_from-last : (f : Bytes) (n : ℕ) → HasNoSep f → split_from f n ≡ f ∷ []
unfolding split_from
split_from-last [] n h = refl
split_from-last (c ∷ f) zero h = refl
split_from-last (c ∷ f) (suc n) h = rw h.0 (rw (split_from-last f (suc n) h.1) refl)

split_from-join_fields :
    (fs : List Bytes) (n : ℕ)
    → All HasNoSep fs
    → 0 < length fs
    → length fs ≤ suc n
    → split_from (join_fields fs) n ≡ fs
split_from-join_fields [] n h p l = absurd (omega (arith, p))
split_from-join_fields (f ∷ []) n h p l = split_from-last f n h.0
split_from-join_fields (f ∷ g ∷ fs) zero h p l = absurd (omega (arith, l))
split_from-join_fields (f ∷ g ∷ fs) (suc n) h p l =
    split_from-field f (join_fields (g ∷ fs)) n h.0
    ∙ ap (λ r. f ∷ r) (split_from-join_fields (g ∷ fs) n h.1 (omega arith) (omega (arith, l)))

-- splitFields gives the fields of a row back, in order, and empty ones behind them. The fields hold
-- no separator, there is at least one, and not more than `max_fields`, suc n.
pub split_fields-join_fields :
    (fs : List Bytes) (n : ℕ)
    → All HasNoSep fs
    → 0 < length fs
    → length fs ≤ suc n
    → split_fields (join_fields fs) (suc n) ≡ fs ++ empty_fields (suc n - length fs)
unfolding split_fields
split_fields-join_fields fs n h p l = rw (split_from-join_fields fs n h p l)
