-- ===== src/Utils/Nesting/Saves.antt =====
-- The savepoints that the code relies on: each has what had been written when its subtransaction
-- began, and none of a lower level is newer.
use oracle_fdw.Base.{
  ℕ, ◌+◌, ◌≤◌, ◌<◌, ◌≡◌, refl, ap, ◌∙◌, sym, inl, inr, false, List, [], ◌∷◌, ◌++◌, some, length,
  All, ◌==◌, arith, append_assoc, Bool-cases, ==_self,
}
use oracle_fdw.Utils.Nesting.{Save, Db, forget, back_to}

-- The level of the innermost of the subtransactions that have begun.
abbrev pub level_of : List (List ℕ) → ℕ
level_of begun = length begun + 1

abbrev pub IsAbove : ℕ → List Save → Type 0
IsAbove n ss = All (λ s. n < s.name) ss

-- `begun` is what had been written when the subtransactions began, the innermost one first.
abbrev pub IsKept : List (List ℕ) → List Save → Type 0
IsKept [] saves = Unit
IsKept (d ∷ ds) saves =
    (above : List Save) × (below : List Save) × (saves
      ≡ above ++ (record { name = level_of (d ∷ ds); kept = d } ∷ below))
    × IsAbove (level_of (d ∷ ds)) above
    × IsKept ds below

IsAbove-append : (n : ℕ) (xs ys : List Save) → IsAbove n xs → IsAbove n ys → IsAbove n (xs ++ ys)
IsAbove-append n [] ys h k = k
IsAbove-append n (x ∷ xs) ys h k = (h.0, IsAbove-append n xs ys h.1 k)

IsAbove-weaken : (m n : ℕ) (xs : List Save) → m ≤ n → IsAbove n xs → IsAbove m xs
IsAbove-weaken m n [] l h = tt
IsAbove-weaken m n (x ∷ xs) l h = (omega (arith, l, h.0), IsAbove-weaken m n xs l h.1)

pub IsKept-prepend :
    (ds : List (List ℕ)) (above saves : List Save)
    → IsAbove (level_of ds) above
    → IsKept ds saves
    → IsKept ds (above ++ saves)
IsKept-prepend [] above saves a h = tt
IsKept-prepend (d ∷ ds) above saves a (newer, older, e, n, k) = (
  above ++ newer,
  older,
  rw e (sym (append_assoc above newer _)),
  IsAbove-append (level_of (d ∷ ds)) above newer a n,
  k,
)

IsAbove-forget : (n m : ℕ) (xs : List Save) → IsAbove n xs → IsAbove n (forget m xs)
IsAbove-forget n m [] h = tt
IsAbove-forget n m (x ∷ xs) h = elim (Bool-cases (x.name == m)) [
  | inl e ↦ rw e (IsAbove-forget n m xs h.1)
  | inr e ↦ rw e (h.0, IsAbove-forget n m xs h.1)
]

forget-append : (m : ℕ) (xs ys : List Save) → forget m (xs ++ ys) ≡ forget m xs ++ forget m ys
forget-append m [] ys = refl
forget-append m (x ∷ xs) ys = elim (Bool-cases (x.name == m)) [
  | inl e ↦ rw e (forget-append m xs ys)
  | inr e ↦ rw e (ap (λ r. x ∷ r) (forget-append m xs ys))
]

IsKept-forget :
    (ds : List (List ℕ)) (m : ℕ) (saves : List Save)
    → level_of ds < m
    → IsKept ds saves
    → IsKept ds (forget m saves)
IsKept-forget [] m saves l h = tt
IsKept-forget (d ∷ ds) m saves l (newer, older, e, n, k) =
    let other : (level_of (d ∷ ds) == m) ≡ false = ground (arith, l) in
    (
      forget m newer,
      forget m older,
      rw e (
          rw (forget-append m newer (record { name = level_of (d ∷ ds); kept = d } ∷ older))
            (rw other refl)),
      IsAbove-forget (level_of (d ∷ ds)) m newer n,
      IsKept-forget ds m older (omega (arith, l)) k,
    )

-- A new savepoint of the next level.
pub IsKept-savepoint :
    (d : List ℕ) (ds : List (List ℕ)) (saves : List Save)
    → IsKept ds saves
    → IsKept
        (d ∷ ds)
        (record { name = level_of (d ∷ ds); kept = d } ∷ forget (level_of (d ∷ ds)) saves)
IsKept-savepoint d ds saves h = (
  [],
  forget (level_of (d ∷ ds)) saves,
  refl,
  tt,
  IsKept-forget ds (level_of (d ∷ ds)) saves (omega arith) h,
)

-- The savepoint is no longer used.
pub IsKept-release :
    (d : List ℕ) (ds : List (List ℕ)) (saves : List Save) → IsKept (d ∷ ds) saves → IsKept ds saves
IsKept-release d ds saves (newer, older, e, n, k) =
    let mine : Save = record { name = level_of (d ∷ ds); kept = d } in
    rw (e ∙ sym (append_assoc newer (mine ∷ []) older)) (
      IsKept-prepend ds (newer ++ (mine ∷ [])) older
        (IsAbove-append (level_of ds) newer (mine ∷ [])
          (IsAbove-weaken (level_of ds) (level_of (d ∷ ds)) newer (omega arith) n)
          (omega arith, tt))
        k)

back_to-above :
    (db : Db) (n : ℕ) (above below : List Save)
    → IsAbove n above
    → back_to db n (above ++ below) ≡ back_to db n below
back_to-above db n [] below h = refl
back_to-above db n (s ∷ above) below h =
    let other : (s.name == n) ≡ false = ground (arith, h.0) in
    rw other (back_to-above db n above below h.1)

-- The rollback to a savepoint that is kept.
pub back_to-IsKept :
    (db : Db) (d : List ℕ) (ds : List (List ℕ)) (saves : List Save)
    → IsKept (d ∷ ds) saves
    → (rest : List Save) × (back_to db (level_of (d ∷ ds)) saves
        ≡ some (record db { written = d; saves = rest }))
      × IsKept ds rest
back_to-IsKept db d ds saves (newer, older, e, n, k) =
    let mine : Save = record { name = level_of (d ∷ ds); kept = d } in
    (
      mine ∷ older,
      rw e (
          rw (back_to-above db (level_of (d ∷ ds)) newer (mine ∷ older) n)
            (rw (==_self (level_of (d ∷ ds))) refl)),
      IsKept-prepend ds (mine ∷ []) older (omega arith, tt) k,
    )
