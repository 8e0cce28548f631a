-- ===== src/Utils/Backends.antt =====
-- The savepoints of the two backends: oracle_utils.c through OCI and jni_backend/oracle_utils_jni.c
-- through Java are two implementations of the same functions.
use oracle_fdw.Base.{
  ℕ, zero, suc, ◌+◌, ◌-◌, ◌≤◌, ◌≡◌, refl, ap, ◌∙◌, Bool, true, false, List, [], ◌∷◌, none, ltb, leb,
  arith, Bool-cases, inl, inr,
}
use oracle_fdw.Jni.Savepoints.{
  Call, set_savepoints, end_subtransaction, set_levels_lem, set_levels-readonly, roll_back,
  at_level,
}
use oracle_fdw.Jni.Savepoints
use oracle_fdw.Utils.Statements.{Sql, World, Calls, Succeeds, send_stmt_lem}
use oracle_fdw.Utils.Transactions.{
  savepoints, savepoint_rounds, oracle_set_savepoint, oracle_set_savepoint_lem,
  oracle_end_subtransaction,
}

-- What the Java class sends to Oracle.
abbrev pub sent_by : List Call → List Sql
sent_by [] = []
sent_by (Call.set_savepoint n ∷ cs) = Sql.savepoint n ∷ sent_by cs
sent_by (Call.rollback_to_savepoint n ∷ cs) = Sql.rollback_to n ∷ sent_by cs
sent_by (Call.close_statement ∷ cs) = sent_by cs

abbrev pub world : ℕ → Bool → World
world level readonly = record { xact_level = level; stmtlist = []; readonly = readonly; sent = [] }

sent_by-savepoints : (n level : ℕ) → sent_by (Savepoints.savepoints n level) ≡ savepoints n level
sent_by-savepoints zero level = refl
sent_by-savepoints (suc n) level =
    ap (λ qs. Sql.savepoint (level + 1) ∷ qs) (sent_by-savepoints n (level + 1))

module _ (java : Call → Bool) (works : (c : Call) → java c ≡ true) (oci : Calls)
    (ok : Succeeds oci) where
  savepoint_rounds-readonly :
      (n level : ℕ) → savepoint_rounds oci n (world level true) ≡ (world (level + n) true, none)
  unfolding savepoint_rounds
  savepoint_rounds-readonly zero level = ap (λ k. (world k true, none)) (omega arith)
  savepoint_rounds-readonly (suc n) level =
      savepoint_rounds-readonly n (level + 1) ∙ ap (λ k. (world k true, none)) (omega arith)

  -- In read-write and read-only transactions, where no call fails, the two functions that set
  -- savepoints send the same statements to Oracle and leave the same level.
  pub set_savepoints-oracle_set_savepoint :
      (level nest_level : ℕ) (readonly : Bool)
      → let j = set_savepoints java (at_level level readonly) nest_level in
        let c = (oracle_set_savepoint oci none nest_level (world level readonly)).0 in
        (sent_by j.calls ≡ c.sent) × (j.state.xact_level ≡ c.xact_level)
  unfolding set_savepoints
  set_savepoints-oracle_set_savepoint level nest_level false =
      rw (set_levels_lem java (nest_level - level) level works) (
        rw (oracle_set_savepoint_lem oci ok nest_level level [] [])
          (sent_by-savepoints (nest_level - level) level, refl))
  set_savepoints-oracle_set_savepoint level nest_level true =
      unfold oracle_set_savepoint in
      rw (set_levels-readonly java (nest_level - level) level)
        (rw (savepoint_rounds-readonly (nest_level - level) level) (refl, refl))

  end_known :
      (level nest_level : ℕ) (readonly is_commit : Bool)
      → leb nest_level 1 ≡ false
      → ltb level nest_level ≡ false
      → let j = end_subtransaction java (at_level level readonly) nest_level is_commit in
        let c =
          (oracle_end_subtransaction oci true nest_level is_commit (world level readonly)).0 in
        (sent_by j.calls ≡ c.sent) × (j.state.xact_level ≡ c.xact_level)
  unfolding end_subtransaction oracle_end_subtransaction roll_back
  end_known level nest_level true is_commit i e = rw i (rw e (refl, refl))
  end_known level nest_level false true i e = rw i (rw e (refl, refl))
  end_known level nest_level false false i e = rw i (
      rw e (
        rw (works Call.close_statement) (
          rw (send_stmt_lem oci ok (Sql.rollback_to nest_level) (world (nest_level - 1) false))
            (refl, refl))))

  -- The same holds for the functions that end a subtransaction, whose nesting level is at least 2.
  pub end_subtransaction-oracle_end_subtransaction :
      (level nest_level : ℕ) (readonly is_commit : Bool)
      → 2 ≤ nest_level
      → let j = end_subtransaction java (at_level level readonly) nest_level is_commit in
        let c =
          (oracle_end_subtransaction oci true nest_level is_commit (world level readonly)).0 in
        (sent_by j.calls ≡ c.sent) × (j.state.xact_level ≡ c.xact_level)
  unfolding end_subtransaction oracle_end_subtransaction
  end_subtransaction-oracle_end_subtransaction level nest_level readonly is_commit h =
      let inner : leb nest_level 1 ≡ false = ground (arith, h) in
      elim (Bool-cases (ltb level nest_level)) [
        | inl e ↦ rw inner (rw e (refl, refl))
        | inr e ↦ end_known level nest_level readonly is_commit inner e
      ]
