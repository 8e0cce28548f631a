-- ===== src/Utils/Callbacks.antt =====
-- oracle_fdw.c, transactionCallback and subtransactionCallback: what PostgreSQL's events do to the
-- Oracle transaction of a connection.
use oracle_fdw.Base.{
  ℕ, ◌≡◌, refl, Bool, true, false, List, [], ◌∷◌, ◌++◌, Option, none, some, ◌==◌, if◌then◌else◌,
  Bool-cases, inl, inr, eq_of_==, append-nil,
}
use oracle_fdw.Utils.Statements.{
  Sql, World, Failure, Run, Calls, cannot_prepare, free_all, free_all_lem,
}
use oracle_fdw.Utils.Transactions.{
  oracle_end_subtransaction, oracle_end_transaction, finish, writable,
}

-- SubXactEvent
pub data SubXactEvent : Type 0 where
  start_sub commit_sub abort_sub pre_commit_sub : SubXactEvent

-- XactEvent
pub data XactEvent : Type 0 where
  commit parallel_commit abort parallel_abort prepare : XactEvent
  pre_commit parallel_pre_commit pre_prepare : XactEvent

-- The static variable dml_in_transaction stays as it is if an error is reported.
abbrev pub reset_dml : Bool → Run → Run × Bool
reset_dml dml (w, none) = ((w, none), false)
reset_dml dml (w, some e) = ((w, some e), dml)

module _ (oci : Calls) where
  -- `cached` says that the connection is in the cache, `nest_level` is
  -- GetCurrentTransactionNestLevel().
  unfoldable pub subtransaction_callback : SubXactEvent → Bool → ℕ → World → Run
  subtransaction_callback SubXactEvent.abort_sub cached nest_level w =
      oracle_end_subtransaction oci cached nest_level false w
  subtransaction_callback SubXactEvent.pre_commit_sub cached nest_level w =
      oracle_end_subtransaction oci cached nest_level true w
  subtransaction_callback _ cached nest_level w = (w, none)

  -- The switch.
  unfoldable pub on_event : XactEvent → Bool → World → Run
  on_event XactEvent.pre_commit cached w = oracle_end_transaction oci cached true false w
  on_event XactEvent.parallel_pre_commit cached w = oracle_end_transaction oci cached true false w
  on_event XactEvent.pre_prepare cached w = (w, some cannot_prepare)
  on_event XactEvent.commit cached w = oracle_end_transaction oci cached true true w
  on_event XactEvent.prepare cached w = oracle_end_transaction oci cached true true w
  on_event XactEvent.parallel_commit cached w = oracle_end_transaction oci cached true true w
  on_event XactEvent.abort cached w = oracle_end_transaction oci cached false true w
  on_event XactEvent.parallel_abort cached w = oracle_end_transaction oci cached false true w

  unfoldable pub transaction_callback : XactEvent → Bool → World → Bool → Run × Bool
  transaction_callback event cached w dml = reset_dml dml (on_event event cached w)

  -- PostgreSQL commits: an error before the commit leads to an abort.
  abbrev after_pre_commit : Bool → Run × Bool → Run × Bool
  after_pre_commit cached ((w, none), dml) = transaction_callback XactEvent.commit cached w dml
  after_pre_commit cached ((w, some e), dml) = transaction_callback XactEvent.abort cached w dml

  abbrev pub commits : Bool → World → Bool → Run × Bool
  commits cached w dml =
      after_pre_commit cached (transaction_callback XactEvent.pre_commit cached w dml)

  -- What a commit sends, if there is a transaction and Oracle accepts the commit.
  abbrev pub committed : World → List Sql
  committed w =
      if w.xact_level == 0 then [] else if oci.execute Sql.commit then Sql.commit ∷ [] else []

  no_transaction :
      (is_commit : Bool) (sent : List Sql)
      → oracle_end_transaction oci true is_commit true (writable 0 [] sent)
        ≡ (writable 0 [] sent, none)
  unfolding oracle_end_transaction free_all
  no_transaction is_commit sent = refl

  pre_commit_lem :
      (w : World)
      → (f : Option Failure) × (oracle_end_transaction oci true true false w
          ≡ (writable 0 [] (w.sent ++ committed w), f))
  unfolding oracle_end_transaction finish
  pre_commit_lem w =
      rw (free_all_lem w.stmtlist (record w { readonly = false }))
        (elim (Bool-cases (w.xact_level == 0)) [
          | inl e ↦ rw e (rw (eq_of_== w.xact_level 0 e) (rw (append-nil w.sent) (none, refl)))
          | inr e ↦ rw e (elim (Bool-cases (oci.execute Sql.commit)) [
            | inl x ↦ rw x (none, refl)
            | inr x ↦ rw x (rw (append-nil w.sent) (_, refl))
          ])
        ])

  after_pre_commit_lem :
      (f : Option Failure) (sent : List Sql) (dml : Bool)
      → after_pre_commit true (reset_dml dml (writable 0 [] sent, f))
        ≡ ((writable 0 [] sent, none), false)
  unfolding transaction_callback on_event
  after_pre_commit_lem none sent dml = rw (no_transaction true sent) refl
  after_pre_commit_lem (some e) sent dml = rw (no_transaction false sent) refl

  -- Whatever OCI answers, PostgreSQL's commit, with an abort if the events before it report an error,
  -- has Oracle execute one COMMIT if there is a transaction and Oracle accepts it, and nothing else, and
  -- ends without a report, a transaction, a statement or the mark that data were modified. The
  -- connection is in the cache.
  pub commits_lem :
      (w : World) (dml : Bool)
      → commits true w dml ≡ ((writable 0 [] (w.sent ++ committed w), none), false)
  unfolding transaction_callback on_event
  commits_lem w dml =
      let (f, e) = pre_commit_lem w in rw e (after_pre_commit_lem f (w.sent ++ committed w) dml)
