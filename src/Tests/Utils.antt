-- ===== src/Tests/Utils.antt =====
-- Transactions, savepoints and statements at concrete inputs.
use oracle_fdw.Base.{◌≡◌, refl, List, true, false, [], ◌∷◌, none, some, arith}
use oracle_fdw.Jni.Savepoints.{set_savepoints, end_subtransaction, at_level}
use oracle_fdw.Utils.Statements.{Sql, World, Calls, Succeeds, free_all, free_all_lem}
use oracle_fdw.Utils.Transactions.{
  oracle_set_savepoint, oracle_end_subtransaction, oracle_end_transaction, IsEnded,
  oracle_end_transaction-IsEnded, writable,
}
use oracle_fdw.Utils.Callbacks.{commits, commits_lem}
use oracle_fdw.Utils.Nesting.{Op, System, does, run}
use oracle_fdw.Utils.Nesting.Refinement.{system, run-IsMeant}
use oracle_fdw.Utils.Backends.{
  sent_by, world, set_savepoints-oracle_set_savepoint, end_subtransaction-oracle_end_subtransaction,
}

-- Every call succeeds.
abbrev willing : Calls
willing = record { prepare = λ q. some 77; execute = λ q. true }

willing_ok : Succeeds willing
willing_ok = record { handle = λ q. 77; prepares = λ q. refl; executes = λ q. refl }

-- Nothing can be executed.
abbrev broken : Calls
broken = record { prepare = λ q. some 77; execute = λ q. false }

abbrev busy : World
busy = record {
  xact_level = 2;
  stmtlist = record { stmthp = 5; loclist = 1 ∷ 2 ∷ [] } ∷ record { stmthp = 6; loclist = [] } ∷ [];
  readonly = false;
  sent = Sql.savepoint 2 ∷ [];
}

abbrev nested_ops : List Op
nested_ops =
    Op.write 1
    ∷ Op.begin_sub
    ∷ Op.write 2
    ∷ Op.begin_sub
    ∷ Op.begin_sub
    ∷ Op.write 3
    ∷ Op.commit_sub
    ∷ Op.abort_sub
    ∷ Op.write 4
    ∷ Op.commit_sub
    ∷ []

run-IsMeant_example :
    (y : System) × (run (does willing) nested_ops (system 1 0 (9 ∷ []) (9 ∷ []) []) ≡ some y)
    × (y.db.written ≡ 4 ∷ 2 ∷ 1 ∷ 9 ∷ [])
run-IsMeant_example =
    run-IsMeant willing willing_ok nested_ops (9 ∷ [])
      (record { written = 4 ∷ 2 ∷ 1 ∷ 9 ∷ []; begun = [] }) refl

commits_lem_example :
    commits broken true busy true ≡ ((writable 0 [] (Sql.savepoint 2 ∷ []), none), false)
commits_lem_example = commits_lem broken busy true

oracle_end_transaction-IsEnded_example :
    IsEnded broken (oracle_end_transaction broken true false true busy)
oracle_end_transaction-IsEnded_example = oracle_end_transaction-IsEnded broken false busy

free_all_lem_example : free_all 2 busy ≡ (record busy { stmtlist = [] }, none)
free_all_lem_example = free_all_lem busy.stmtlist busy

set_savepoints-oracle_set_savepoint_example :
    let j = set_savepoints (λ c. true) (at_level 1 false) 3 in
    let c = (oracle_set_savepoint willing none 3 (world 1 false)).0 in
    (sent_by j.calls ≡ c.sent) × (j.state.xact_level ≡ c.xact_level)
set_savepoints-oracle_set_savepoint_example =
    set_savepoints-oracle_set_savepoint (λ c. true) (λ c. refl) willing willing_ok 1 3 false

end_subtransaction-oracle_end_subtransaction_example :
    let j = end_subtransaction (λ c. true) (at_level 3 false) 2 false in
    let c = (oracle_end_subtransaction willing true 2 false (world 3 false)).0 in
    (sent_by j.calls ≡ c.sent) × (j.state.xact_level ≡ c.xact_level)
end_subtransaction-oracle_end_subtransaction_example =
    end_subtransaction-oracle_end_subtransaction (λ c. true) (λ c. refl) willing willing_ok 3 2
      false false (omega arith)
