-- ===== src/Utils/Transactions.antt =====
-- oracle_utils.c, oracleSetSavepoint, oracleEndSubtransaction and oracleEndTransaction. PostgreSQL's
-- nested transactions are savepoints of the Oracle transaction.
use oracle_fdw.Base.{
  ℕ, zero, suc, ◌+◌, ◌-◌, ◌≤◌, ◌<◌, ◌≡◌, refl, ◌∙◌, ap, Bool, true, false, ◌||◌, List, [], ◌∷◌,
  ◌++◌, Option, none, some, length, ltb, ◌==◌, if◌then◌else◌, arith, append_assoc, append-nil,
  Bool-cases, inl, inr, eq_of_==, ltb_of_le, ltb_of_lt,
}
use oracle_fdw.Utils.Statements.{
  Sql, Stmt, World, Run, ◌then◌, Calls, Succeeds, conn_not_found, stmt_not_null, execute_failed,
  send_stmt, send_stmt_lem, free_all, free_all_lem,
}

-- The cache: the connections of each server of each environment, by their addresses.
abbrev pub Connections : Type 0
Connections = List (List (List ℕ))

abbrev in_connlist : ℕ → List ℕ → Bool
in_connlist connarg [] = false
in_connlist connarg (c ∷ cs) = c == connarg || in_connlist connarg cs

abbrev in_srvlist : ℕ → List (List ℕ) → Bool
in_srvlist connarg [] = false
in_srvlist connarg (s ∷ ss) = in_connlist connarg s || in_srvlist connarg ss

-- The three loops that look for the connection.
unfoldable pub is_cached : ℕ → Connections → Bool
is_cached connarg [] = false
is_cached connarg (e ∷ es) = in_srvlist connarg e || is_cached connarg es

-- SAVEPOINT for the `n` levels behind `level`, in order.
abbrev pub savepoints : ℕ → ℕ → List Sql
savepoints zero level = []
savepoints (suc n) level = Sql.savepoint (level + 1) ∷ savepoints n (level + 1)

-- A read-write transaction.
abbrev pub writable : ℕ → List Stmt → List Sql → World
writable level ss sent = record { xact_level = level; stmtlist = ss; readonly = false; sent = sent }

module _ (oci : Calls) where
  -- `n` rounds of the loop of oracleSetSavepoint
  unfoldable pub savepoint_rounds : ℕ → World → Run
  savepoint_rounds zero w = (w, none)
  savepoint_rounds (suc n) w =
      let level = w.xact_level + 1 in
      let raised = record w { xact_level = level } in
      (if w.readonly then (raised, none) else send_stmt oci (Sql.savepoint level) raised)
      then savepoint_rounds n

  -- The session's statement handle must be NULL.
  unfoldable pub oracle_set_savepoint : Option ℕ → ℕ → World → Run
  oracle_set_savepoint none nest_level w = savepoint_rounds (nest_level - w.xact_level) w
  oracle_set_savepoint (some stmthp) nest_level w = (w, some stmt_not_null)

  unfoldable pub oracle_end_subtransaction : Bool → ℕ → Bool → World → Run
  oracle_end_subtransaction cached nest_level is_commit w =
      let w' = record w { xact_level = nest_level - 1 } in
      if ltb w.xact_level nest_level
      then (w, none)
      else if w.readonly || is_commit
      then (w', none)
      else if cached
      then send_stmt oci (Sql.rollback_to nest_level) w'
      else (w', some conn_not_found)

  -- OCITransCommit or OCITransRollback
  unfoldable pub finish : Sql → Bool → World → Run
  finish q noerror w =
      if oci.execute q
      then (record w { sent = w.sent ++ (q ∷ []) }, none)
      else (w, if noerror then none else some (execute_failed q))

  unfoldable pub oracle_end_transaction : Bool → Bool → Bool → World → Run
  oracle_end_transaction cached is_commit noerror w =
      let quiet = noerror || w.readonly in
      let w' = record w { readonly = false } in
      if cached
      then (free_all (length w.stmtlist) w' then λ v.
          if v.xact_level == 0
          then (v, none)
          else finish (if is_commit then Sql.commit else Sql.rollback) quiet
              (record v { xact_level = 0 }))
      else (record w' { xact_level = 0 }, some conn_not_found)

  savepoint_rounds_lem :
      (ok : Succeeds oci) (n level : ℕ) (ss : List Stmt) (sent : List Sql)
      → savepoint_rounds n (writable level ss sent)
        ≡ (writable (level + n) ss (sent ++ savepoints n level), none)
  unfolding savepoint_rounds
  savepoint_rounds_lem ok zero level ss sent =
      rw append-nil (ap (λ k. (writable k ss sent, none)) (omega arith))
  savepoint_rounds_lem ok (suc n) level ss sent =
      let q = Sql.savepoint (level + 1) in
      let last : level + 1 + n ≡ level + suc n = omega arith in
      rw (send_stmt_lem oci ok q (writable (level + 1) ss sent)) (
        savepoint_rounds_lem ok n (level + 1) ss (sent ++ (q ∷ []))
        ∙ rw last (rw (append_assoc sent (q ∷ []) (savepoints n (level + 1))) refl))

  -- Where every call succeeds, oracleSetSavepoint sets the savepoints that are missing up to
  -- `nest_level`, in order, keeps the list of statements, and leaves the level at `nest_level`, or
  -- where it was if it was not below.
  pub oracle_set_savepoint_lem :
      (ok : Succeeds oci) (nest_level level : ℕ) (ss : List Stmt) (sent : List Sql)
      → oracle_set_savepoint none nest_level (writable level ss sent) ≡ (
        writable (level + (nest_level - level)) ss (sent ++ savepoints (nest_level - level) level),
        none,
      )
  unfolding oracle_set_savepoint
  oracle_set_savepoint_lem ok nest_level level ss sent =
      savepoint_rounds_lem ok (nest_level - level) level ss sent

  -- The abort of a subtransaction that Oracle knows.
  pub oracle_end_subtransaction-abort :
      (ok : Succeeds oci) (nest_level level : ℕ) (ss : List Stmt) (sent : List Sql)
      → nest_level ≤ level
      → oracle_end_subtransaction true nest_level false (writable level ss sent)
        ≡ (writable (nest_level - 1) ss (sent ++ (Sql.rollback_to nest_level ∷ [])), none)
  unfolding oracle_end_subtransaction
  oracle_end_subtransaction-abort ok nest_level level ss sent h =
      rw (ltb_of_le level nest_level h)
        (send_stmt_lem oci ok (Sql.rollback_to nest_level) (writable (nest_level - 1) ss sent))

  -- Its commit, for whatever OCI answers.
  pub oracle_end_subtransaction-commit :
      (nest_level level : ℕ) (ss : List Stmt) (sent : List Sql)
      → nest_level ≤ level
      → oracle_end_subtransaction true nest_level true (writable level ss sent)
        ≡ (writable (nest_level - 1) ss sent, none)
  unfolding oracle_end_subtransaction
  oracle_end_subtransaction-commit nest_level level ss sent h =
      rw (ltb_of_le level nest_level h) refl

  -- A subtransaction that Oracle does not know.
  pub oracle_end_subtransaction-unknown :
      (nest_level level : ℕ) (is_commit : Bool) (ss : List Stmt) (sent : List Sql)
      → level < nest_level
      → oracle_end_subtransaction true nest_level is_commit (writable level ss sent)
        ≡ (writable level ss sent, none)
  unfolding oracle_end_subtransaction
  oracle_end_subtransaction-unknown nest_level level is_commit ss sent h =
      rw (ltb_of_lt level nest_level h) refl

  -- Where every call succeeds, oracleEndTransaction closes all statements, ends the transaction by
  -- one commit or rollback, if there is one, and leaves no transaction.
  pub oracle_end_transaction_lem :
      (ok : Succeeds oci) (is_commit noerror : Bool) (w : World)
      → oracle_end_transaction true is_commit noerror w ≡ (
        record {
          xact_level = 0;
          stmtlist = [];
          readonly = false;
          sent =
              w.sent
              ++ (if w.xact_level == 0
                  then []
                  else (if is_commit then Sql.commit else Sql.rollback) ∷ []);
        },
        none,
      )
  unfolding oracle_end_transaction finish
  oracle_end_transaction_lem ok is_commit noerror w =
      rw (free_all_lem w.stmtlist (record w { readonly = false }))
        (elim (Bool-cases (w.xact_level == 0)) [
          | inl e ↦ rw e (rw (eq_of_== w.xact_level 0 e) (rw (append-nil w.sent) refl))
          | inr e ↦ rw e (rw (ok.executes (if is_commit then Sql.commit else Sql.rollback)) refl)
        ])

  -- No report, no transaction, and no statement.
  abbrev pub IsEnded : Run → Type 0
  IsEnded r = (r.1 ≡ none) × (r.0.xact_level ≡ 0) × (r.0.stmtlist ≡ []) × (r.0.readonly ≡ false)

  finish-IsEnded : (q : Sql) (sent : List Sql) → IsEnded (finish q true (writable 0 [] sent))
  unfolding finish
  finish-IsEnded q sent = elim (Bool-cases (oci.execute q)) [
    | inl e ↦ rw e (refl, refl, refl, refl)
    | inr e ↦ rw e (refl, refl, refl, refl)
  ]

  -- Whatever OCI answers, with `noerror`, as when PostgreSQL aborts, the function returns, and it
  -- leaves no transaction and no statement, so that no error is raised while an error is handled.
  -- The connection is in the cache.
  pub oracle_end_transaction-IsEnded :
      (is_commit : Bool) (w : World) → IsEnded (oracle_end_transaction true is_commit true w)
  unfolding oracle_end_transaction
  oracle_end_transaction-IsEnded is_commit w =
      rw (free_all_lem w.stmtlist (record w { readonly = false }))
        (elim (Bool-cases (w.xact_level == 0)) [
          | inl e ↦ rw e (refl, eq_of_== w.xact_level 0 e, refl, refl)
          | inr e ↦ rw e (finish-IsEnded (if is_commit then Sql.commit else Sql.rollback) w.sent)
        ])
