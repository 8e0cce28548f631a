-- ===== src/Fdw/Modify/Clauses.antt =====
-- What a loop over the columns adds to a statement: the pieces of the selected columns, in their order.
use oracle_fdw.Base.{
  ℕ, suc, ◌≡◌, refl, ◌∙◌, Bool, true, false, ◌&&◌, List, [], ◌∷◌, ◌++◌, Bytes, map, filter, All,
  append_assoc, append-nil, Bool-cases, inl, inr, if◌then◌else◌,
}
use oracle_fdw.Result.{Result, ok, bind-ok}
use oracle_fdw.Fdw.Columns.{Param}
use oracle_fdw.Fdw.Modify.{Column, Building, each}

-- Pieces, with `opening` before the first one, unless `first` is false, and `between` before the others.
abbrev pub pieces : Bool → Bytes → Bytes → List Bytes → Bytes
pieces first opening between [] = []
pieces first opening between (p ∷ ps) =
    ((if first then opening else between) ++ p) ++ pieces false opening between ps

-- The parameters of the columns, added at the front.
abbrev pub collected :
    (ℕ → Column → List Param → List Param) → ℕ → List Column → List Param → List Param
collected param i [] params = params
collected param i (col ∷ cols) params = collected param (suc i) cols (param i col params)

abbrev pub none_in : List Column → Bool
none_in [] = true
none_in (col ∷ cols) = false

-- A loop whose step does nothing for a column that is not selected and adds a piece for one that is,
-- if the column is good.
pub record IsLoop (step : ℕ → Column → Building → Result Building) : Type 1 where
  pub selected : Column → Bool
  pub IsGood : Column → Type 0
  pub opening : Bytes
  pub between : Bytes
  pub piece : Column → Bytes
  pub param : ℕ → Column → List Param → List Param
  pub skips : (i : ℕ) (col : Column) (b : Building) → selected col ≡ false → step i col b ≡ ok b
  pub adds :
      (i : ℕ) (col : Column) (b : Building)
      → selected col ≡ true
      → IsGood col
      → step i col b
        ≡ ok (record {
          sql = b.sql ++ ((if b.firstcol then opening else between) ++ piece col);
          firstcol = false;
          params = param i col b.params;
        })

and_true : (b : Bool) → b && true ≡ b
and_true true = refl
and_true false = refl

and_false : (b : Bool) → b && false ≡ false
and_false true = refl
and_false false = refl

module _ {step : ℕ → Column → Building → Result Building} (l : IsLoop step) where
  abbrev pub param_if : ℕ → Column → List Param → List Param
  param_if i col params = if l.selected col then l.param i col params else params

  abbrev pub clause : Bool → List Column → Bytes
  clause first cols = pieces first l.opening l.between (map l.piece (filter l.selected cols))

  abbrev pub built : ℕ → List Column → Building → Building
  built i cols b = record {
    sql = b.sql ++ clause b.firstcol cols;
    firstcol = b.firstcol && none_in (filter l.selected cols);
    params = collected param_if i cols b.params;
  }

  pub each_lem :
      (i : ℕ) (cols : List Column) (b : Building)
      → All (λ col. l.selected col ≡ true → l.IsGood col) cols
      → each step i cols b ≡ ok (built i cols b)
  unfolding each
  each_lem i [] b h = rw (append-nil b.sql) (rw (and_true b.firstcol) refl)
  each_lem i (col ∷ cols) b (h, hs) = elim (Bool-cases (l.selected col)) [
    | inl e ↦ rw (l.adds i col b e (h e)) (
        each_lem (suc i) cols _ hs
        ∙ rw e (rw (append_assoc b.sql _ (clause false cols)) (rw (and_false b.firstcol) refl)))
    | inr e ↦ rw (l.skips i col b e) (each_lem (suc i) cols b hs ∙ rw e refl)
  ]

  -- A loop that succeeds has found every selected column good.
  pub each_inverse :
      (inverse : (i : ℕ) (col : Column) (b final : Building)
        → l.selected col ≡ true
        → step i col b ≡ ok final
        → l.IsGood col)
      (i : ℕ) (cols : List Column) (b final : Building)
      → each step i cols b ≡ ok final
      → All (λ col. l.selected col ≡ true → l.IsGood col) cols
  unfolding each
  each_inverse inverse i [] b final h = tt
  each_inverse inverse i (col ∷ cols) b final h =
      let (b1, e, f) = bind-ok (step i col b) (each step (suc i) cols) final h in
      ((λ s. inverse i col b b1 s e), each_inverse inverse (suc i) cols b1 final f)
