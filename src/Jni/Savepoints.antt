-- ===== src/Jni/Savepoints.antt =====
-- oracle_utils_jni.c, setSavepoints and oracleEndSubtransaction: PostgreSQL's nested transactions as
-- savepoints of the Oracle transaction. The calls to Java are a parameter, which says whether a call
-- returns without an exception; checkJava then reports an error.
use oracle_fdw.Base.{
  ℕ, zero, suc, ◌+◌, ◌-◌, ◌≤◌, ◌≡◌, ap, ◌∙◌, Bool, true, false, ◌||◌, List, [], ◌∷◌, leb, ltb,
  if◌then◌else◌, arith,
}

-- xact_level and readonly of a JniSessionState with a backend
pub record State : Type 0 where
  pub xact_level : ℕ
  pub readonly : Bool

-- setSavepoint, rollbackToSavepoint and closeStatement of the Java class
pub data Call : Type 0 where
  set_savepoint rollback_to_savepoint : ℕ → Call
  close_statement : Call

-- The calls that were made, the state, and whether the function returned.
pub record Outcome : Type 0 where
  pub calls : List Call
  pub state : State
  pub returned : Bool

abbrev after : Call → Outcome → Outcome
after c r = record r { calls = c ∷ r.calls }

-- The savepoints behind level `level`, in order.
abbrev pub savepoints : ℕ → ℕ → List Call
savepoints zero level = []
savepoints (suc n) level = Call.set_savepoint (level + 1) ∷ savepoints n (level + 1)

abbrev pub at_level : ℕ → Bool → State
at_level level readonly = record { xact_level = level; readonly = readonly }

module _ (java : Call → Bool) where
  -- `n` rounds of the loop
  unfoldable pub set_levels : ℕ → State → Outcome
  set_levels zero s = record { calls = []; state = s; returned = true }
  set_levels (suc n) s =
      let s' = record s { xact_level = s.xact_level + 1 } in
      let later = set_levels n s' in
      let call = Call.set_savepoint (s.xact_level + 1) in
      if s.readonly
      then later
      else if java call
      then after call later
      else record { calls = call ∷ []; state = s'; returned = false }

  unfoldable pub set_savepoints : State → ℕ → Outcome
  set_savepoints s nest_level = set_levels (nest_level - s.xact_level) s

  -- rollbackToSavepoint, behind closeStateStatement
  unfoldable pub roll_back : State → ℕ → Outcome
  roll_back s nest_level =
      let call = Call.rollback_to_savepoint nest_level in
      if java Call.close_statement
      then record { calls = Call.close_statement ∷ call ∷ []; state = s; returned = java call }
      else record { calls = Call.close_statement ∷ []; state = s; returned = false }

  unfoldable pub end_subtransaction : State → ℕ → Bool → Outcome
  end_subtransaction s nest_level is_commit =
      if leb nest_level 1 || ltb s.xact_level nest_level
      then record { calls = []; state = s; returned = true }
      else (let s' = record s { xact_level = nest_level - 1 } in
          if s.readonly || is_commit
          then record { calls = []; state = s'; returned = true }
          else roll_back s' nest_level)

  pub set_levels_lem :
      (n level : ℕ)
      → ((c : Call) → java c ≡ true)
      → set_levels n (at_level level false)
        ≡ record { calls = savepoints n level; state = at_level (level + n) false; returned = true }
  unfolding set_levels
  set_levels_lem zero level j =
      ap (λ k. record { calls = []; state = at_level k false; returned = true }) (omega arith)
  set_levels_lem (suc n) level j = rw (j (Call.set_savepoint (level + 1))) (
      ap (after (Call.set_savepoint (level + 1))) (set_levels_lem n (level + 1) j)
      ∙ ap
          (λ k. record {
            calls = savepoints (suc n) level;
            state = at_level k false;
            returned = true;
          })
          (omega arith))

  pub set_levels-readonly :
      (n level : ℕ)
      → set_levels n (at_level level true)
        ≡ record { calls = []; state = at_level (level + n) true; returned = true }
  unfolding set_levels
  set_levels-readonly zero level =
      ap (λ k. record { calls = []; state = at_level k true; returned = true }) (omega arith)
  set_levels-readonly (suc n) level =
      set_levels-readonly n (level + 1)
      ∙ ap (λ k. record { calls = []; state = at_level k true; returned = true }) (omega arith)

  -- In a read-only transaction setSavepoints makes no call, whatever Java would answer, and the level
  -- is at least `nest_level` afterwards, and as it was where it was larger.
  pub set_savepoints-readonly :
      (level nest_level : ℕ)
      → set_savepoints (at_level level true) nest_level ≡ record {
        calls = [];
        state = at_level (level + (nest_level - level)) true;
        returned = true;
      }
  unfolding set_savepoints
  set_savepoints-readonly level nest_level = set_levels-readonly (nest_level - level) level

  -- Where no call of Java throws: from a level up to `n`, setSavepoints for the nesting
  -- level n + 1 sets exactly the savepoints that are missing, in order; when that subtransaction is
  -- aborted, oracleEndSubtransaction closes the statement, rolls back to the savepoint of level n + 1,
  -- and leaves level n; when it commits, it makes no call and leaves level n. `n` is at least 1.
  pub end_subtransaction-set_savepoints :
      (level n : ℕ)
      → ((c : Call) → java c ≡ true)
      → level ≤ n
      → 1 ≤ n
      → let entered = set_savepoints (at_level level false) (n + 1) in
        (entered.calls ≡ savepoints (n + 1 - level) level)
        × (end_subtransaction entered.state (n + 1) false ≡ record {
          calls = Call.close_statement ∷ Call.rollback_to_savepoint (n + 1) ∷ [];
          state = at_level n false;
          returned = true;
        })
        × (end_subtransaction entered.state (n + 1) true
            ≡ record { calls = []; state = at_level n false; returned = true })
  unfolding set_savepoints end_subtransaction roll_back
  end_subtransaction-set_savepoints level n j h p =
      let top : level + (n + 1 - level) ≡ n + 1 = omega (arith, h) in
      rw (set_levels_lem (n + 1 - level) level j)
        (rw top (ground (arith, p, j Call.close_statement, j (Call.rollback_to_savepoint (n + 1)))))
