-- ===== src/Utils/Statements.antt =====
-- oracle_utils.c, registerStmt, freeStmt and the way in which a statement without results is sent.
use oracle_fdw.Base.{
  ℕ, zero, suc, ◌≡◌, refl, Bool, true, List, [], ◌∷◌, ◌++◌, Option, none, some, length, ◌==◌,
  ==_self, if◌then◌else◌,
}

-- What is sent to Oracle: SAVEPOINT s<n>, ROLLBACK TO SAVEPOINT s<n>, OCITransCommit and
-- OCITransRollback.
pub data Sql : Type 0 where
  savepoint rollback_to : ℕ → Sql
  commit rollback : Sql

-- stmtHandleEntry
pub record Stmt : Type 0 where
  pub stmthp : ℕ
  pub loclist : List ℕ

-- The members of connEntry that transactions use, the static variable readonly, and the statements
-- that Oracle has executed, in order.
pub record World : Type 0 where
  pub xact_level : ℕ
  pub stmtlist : List Stmt
  pub readonly : Bool
  pub sent : List Sql

-- The reports of these functions.
pub data Failure : Type 0 where
  stmt_not_found stmt_not_null conn_not_found : Failure
  prepare_failed execute_failed : Sql → Failure
  cannot_prepare : Failure

-- A function ends with the state that it leaves, and with a report if it does not return.
abbrev pub Run : Type 0
Run = World × Option Failure

infixl 5 ◌then◌
abbrev pub ◌then◌ : Run → (World → Run) → Run
(w, none) then f = f w
(w, some e) then f = (w, some e)

-- OCI: the handle from OCIStmtPrepare2, and whether OCIStmtExecute, OCITransCommit and
-- OCITransRollback succeed.
pub record Calls : Type 0 where
  pub prepare : Sql → Option ℕ
  pub execute : Sql → Bool

-- Every call succeeds.
pub record Succeeds (oci : Calls) : Type 0 where
  pub handle : Sql → ℕ
  pub prepares : (q : Sql) → oci.prepare q ≡ some (handle q)
  pub executes : (q : Sql) → oci.execute q ≡ true

unfoldable pub register_stmt : ℕ → World → World
register_stmt stmthp w = record w {
  stmtlist = record { stmthp = stmthp; loclist = [] } ∷ w.stmtlist;
}

-- The list without the first entry of the handle; none if there is none.
abbrev keep_stmt : Stmt → Option (List Stmt) → Option (List Stmt)
keep_stmt s none = none
keep_stmt s (some ss) = some (s ∷ ss)

unfoldable pub drop_stmt : ℕ → List Stmt → Option (List Stmt)
drop_stmt stmthp [] = none
drop_stmt stmthp (s ∷ ss) =
    let later = drop_stmt stmthp ss in if s.stmthp == stmthp then some ss else keep_stmt s later

abbrev dropped : World → Option (List Stmt) → Run
dropped w none = (w, some stmt_not_found)
dropped w (some ss) = (record w { stmtlist = ss }, none)

unfoldable pub free_stmt : ℕ → World → Run
free_stmt stmthp w = dropped w (drop_stmt stmthp w.stmtlist)

-- while (connp->stmtlist != NULL) freeStmt(connp->stmtlist->stmthp, ...), for at most `fuel` rounds
unfoldable pub free_all : ℕ → World → Run
free_all zero w = (w, none)
free_all (suc fuel) w = elim w.stmtlist [
  | [] ↦ (w, none)
  | s ∷ ss ↦ free_stmt s.stmthp w then free_all fuel
]

module _ (oci : Calls) where
  abbrev pub execute_stmt : Sql → ℕ → World → Run
  execute_stmt q stmthp w =
      if oci.execute q
      then free_stmt stmthp (record w { sent = w.sent ++ (q ∷ []) })
      else (w, some (execute_failed q))

  abbrev pub prepared : Sql → World → Option ℕ → Run
  prepared q w none = (w, some (prepare_failed q))
  prepared q w (some stmthp) = execute_stmt q stmthp (register_stmt stmthp w)

  -- OCIStmtPrepare2, registerStmt, OCIStmtExecute, freeStmt
  unfoldable pub send_stmt : Sql → World → Run
  send_stmt q w = prepared q w (oci.prepare q)

  -- A statement that succeeds leaves the list of statements as it was.
  pub send_stmt_lem :
      (ok : Succeeds oci) (q : Sql) (w : World)
      → send_stmt q w ≡ (record w { sent = w.sent ++ (q ∷ []) }, none)
  unfolding send_stmt register_stmt free_stmt drop_stmt
  send_stmt_lem ok q w = rw (ok.prepares q) (rw (ok.executes q) (rw (==_self (ok.handle q)) refl))

free_stmt-head :
    (s : Stmt) (ss : List Stmt) (w : World)
    → free_stmt s.stmthp (record w { stmtlist = s ∷ ss }) ≡ (record w { stmtlist = ss }, none)
unfolding free_stmt drop_stmt
free_stmt-head s ss w = rw (==_self s.stmthp) refl

-- The loop ends when it has gone round once for each statement, without a report, and no statement is
-- left.
pub free_all_lem :
    (ss : List Stmt) (w : World)
    → free_all (length ss) (record w { stmtlist = ss }) ≡ (record w { stmtlist = [] }, none)
unfolding free_all
free_all_lem [] w = refl
free_all_lem (s ∷ ss) w = rw (free_stmt-head s ss w) (free_all_lem ss w)
