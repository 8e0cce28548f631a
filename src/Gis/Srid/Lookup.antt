-- ===== src/Gis/Srid/Lookup.antt =====
-- The two directions of the SRID table.
use oracle_fdw.Base.{
  ℕ, ◌≡◌, refl, ap, Bool, true, false, ◌⊎◌, inl, inr, ◌||◌, List, [], ◌∷◌, arith, Bool-cases, ◌==◌,
  some,
}
use oracle_fdw.Result.{ok}
use oracle_fdw.Gis.Srid.{
  MapEntry, SridMap, SridFile, loaded, find_from, find_to, epsg_from_oracle, epsg_to_oracle,
}

abbrev pub has_from : ℕ → List MapEntry → Bool
has_from srid [] = false
has_from srid (e ∷ es) = e.from == srid || has_from srid es

abbrev pub has_to : ℕ → List MapEntry → Bool
has_to srid [] = false
has_to srid (e ∷ es) = e.to == srid || has_to srid es

-- No two entries map the same Oracle SRID.
abbrev pub HasDistinctFrom : List MapEntry → Type 0
HasDistinctFrom [] = Unit
HasDistinctFrom (e ∷ es) = (has_from e.from es ≡ false) × HasDistinctFrom es

has_from-find_to :
    (srid : ℕ) (es : List MapEntry) → has_to srid es ≡ true → has_from (find_to srid es) es ≡ true
unfolding find_to
has_from-find_to srid [] h = cc
has_from-find_to srid (e ∷ es) h = ground (arith, has_from-find_to srid es)

find_to-unknown : (srid : ℕ) (es : List MapEntry) → has_to srid es ≡ false → find_to srid es ≡ srid
unfolding find_to
find_to-unknown srid [] h = refl
find_to-unknown srid (e ∷ es) h = ground (arith, find_to-unknown srid es)

find_from-unknown :
    (srid : ℕ) (es : List MapEntry) → has_from srid es ≡ false → find_from srid es ≡ srid
unfolding find_from
find_from-unknown srid [] h = refl
find_from-unknown srid (e ∷ es) h = ground (arith, find_from-unknown srid es)

find_from-find_to_known :
    (srid : ℕ) (es : List MapEntry)
    → HasDistinctFrom es
    → has_to srid es ≡ true
    → find_from (find_to srid es) es ≡ srid
unfolding find_from find_to
find_from-find_to_known srid [] d h = cc
find_from-find_to_known srid (e ∷ es) d h = ground (
  arith,
  find_from-find_to_known srid es d.1,
  has_from-find_to srid es,
  find_to-unknown srid es,
  ap (λ x. has_from x es) {x = e.from} {y = find_to srid es},
)

-- An SRID that the table can take back: one it maps to, or one it does not map from.
abbrev pub IsInvertible : ℕ → List MapEntry → Type 0
IsInvertible srid es = (has_to srid es ≡ true) ⊎ (has_from srid es ≡ false)

pub find_from-find_to :
    (srid : ℕ) (es : List MapEntry)
    → HasDistinctFrom es
    → IsInvertible srid es
    → find_from (find_to srid es) es ≡ srid
find_from-find_to srid es d (inl known) = find_from-find_to_known srid es d known
find_from-find_to srid es d (inr free) = elim (Bool-cases (has_to srid es)) [
  | inl known ↦ find_from-find_to_known srid es d known
  | inr unknown ↦ rw (find_to-unknown srid es unknown) (find_from-unknown srid es free)
]

module _ (file : SridFile) (m : SridMap) (srid : ℕ) {entries : List MapEntry}
    (l : loaded file m ≡ ok entries) where
  pub epsg_to_oracle_lem : epsg_to_oracle file m srid ≡ ok (find_to srid entries, some entries)
  unfolding epsg_to_oracle
  epsg_to_oracle_lem = rw l

  pub epsg_from_oracle_lem :
      epsg_from_oracle file m srid ≡ ok (find_from srid entries, some entries)
  unfolding epsg_from_oracle
  epsg_from_oracle_lem = rw l

-- If no two entries of the table have the same Oracle SRID, an SRID that the table maps to, or does
-- not map from, survives the way to Oracle and back: epsgFromOracle undoes epsgToOracle. The second
-- call finds the table loaded, so that it does not depend on the file.
pub epsg_from_oracle-epsg_to_oracle :
    (file file' : SridFile) (m : SridMap) (srid : ℕ) (entries : List MapEntry)
    → loaded file m ≡ ok entries
    → HasDistinctFrom entries
    → IsInvertible srid entries
    → (t : ℕ) × (epsg_to_oracle file m srid ≡ ok (t, some entries))
      × (epsg_from_oracle file' (some entries) t ≡ ok (srid, some entries))
unfolding epsg_to_oracle epsg_from_oracle
epsg_from_oracle-epsg_to_oracle file file' m srid entries l d v = (
  find_to srid entries,
  rw l,
  ap (λ x. ok (x, some entries)) (find_from-find_to srid entries d v),
)

pub loaded-some :
    (file : SridFile) (entries : List MapEntry) → loaded file (some entries) ≡ ok entries
unfolding loaded
loaded-some file entries = refl
