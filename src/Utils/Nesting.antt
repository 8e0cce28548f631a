-- ===== src/Utils/Nesting.antt =====
-- The savepoints of oracle_utils.c against the nested transactions of PostgreSQL: the Oracle database
-- is described on its own, and so is what PostgreSQL means by a subtransaction.
pub mod Saves
pub mod Refinement
use oracle_fdw.Base.{
  on_some, ℕ, zero, suc, ◌+◌, ◌-◌, ◌≤◌, ◌<◌, ◌≡◌, refl, ap, ◌∙◌, sym, ◌⊎◌, inl, inr, Bool, true,
  false, List, [], ◌∷◌, ◌++◌, Option, none, some, length, All, ltb, ◌==◌, if◌then◌else◌, arith,
  append_assoc, append-nil, Bool-cases, ==_self, eq_of_==,
}
use oracle_fdw.Utils.Statements.{Sql, Stmt, World, Failure, Run, Calls, Succeeds}
use oracle_fdw.Utils.Transactions.{
  writable, savepoints, oracle_set_savepoint, oracle_end_subtransaction, oracle_set_savepoint_lem,
  oracle_end_subtransaction-abort, oracle_end_subtransaction-commit,
  oracle_end_subtransaction-unknown,
}
use oracle_fdw.Utils.Callbacks.{SubXactEvent, subtransaction_callback}

-- A savepoint of Oracle, with what had been written when it was set.
pub record Save : Type 0 where
  pub name : ℕ
  pub kept : List ℕ

-- Oracle: what has been written, since the start and in all, and the savepoints, the newest first.
pub record Db : Type 0 where
  pub base : List ℕ
  pub written : List ℕ
  pub saves : List Save

-- A savepoint is erased when another one of its name is set.
abbrev pub forget : ℕ → List Save → List Save
forget n [] = []
forget n (s ∷ ss) = let rest = forget n ss in if s.name == n then rest else s ∷ rest

-- ROLLBACK TO erases the newer savepoints and keeps the one it names, which must exist.
abbrev pub back_to : Db → ℕ → List Save → Option Db
back_to db n [] = none
back_to db n (s ∷ ss) =
    let later = back_to db n ss in
    if s.name == n then some (record db { written = s.kept; saves = s ∷ ss }) else later

abbrev pub execute : Sql → Db → Option Db
execute (Sql.savepoint n) db =
    some (record db { saves = record { name = n; kept = db.written } ∷ forget n db.saves })
execute (Sql.rollback_to n) db = back_to db n db.saves
execute Sql.commit db = some (record db { base = db.written; saves = [] })
execute Sql.rollback db = some (record db { written = db.base; saves = [] })

abbrev pub replay : List Sql → Db → Option Db
replay [] db = some db
replay (q ∷ qs) db = on_some (replay qs) (execute q db)

-- What a session of PostgreSQL does with the foreign table, in a transaction.
pub data Op : Type 0 where
  begin_sub commit_sub abort_sub : Op
  write : ℕ → Op

-- What PostgreSQL means: each subtransaction remembers what had been written when it began.
pub record Meaning : Type 0 where
  pub written : List ℕ
  pub begun : List (List ℕ)

abbrev pub means : Op → Meaning → Option Meaning
means Op.begin_sub s = some (record s { begun = s.written ∷ s.begun })
means (Op.write x) s = some (record s { written = x ∷ s.written })
means Op.commit_sub s = elim s.begun [ [] ↦ none | d ∷ ds ↦ some (record s { begun = ds }) ]
means Op.abort_sub s = elim s.begun [
  | [] ↦ none
  | d ∷ ds ↦ some (record { written = d; begun = ds })
]

-- The program and Oracle: PostgreSQL's nesting level, the connection, and the database.
pub record System : Type 0 where
  pub nest_level : ℕ
  pub world : World
  pub db : Db

-- The effect of a function: what it sends is executed. A report ends the run.
abbrev pub effect : System → Run → Option System
effect y (w, some e) = none
effect y (w, none) =
    on_some (λ db. some (record y { world = record w { sent = [] }; db = db })) (replay w.sent y.db)

abbrev pub wrote : ℕ → System → System
wrote x y = record y { db = record y.db { written = x ∷ y.db.written } }

abbrev pub left : System → System
left y = record y { nest_level = y.nest_level - 1 }

module _ (oci : Calls) where
  -- OCITransStart, where oracleGetSession finds no transaction
  abbrev pub started : World → World
  started w = if w.xact_level == 0 then record w { xact_level = 1 } else w

  -- oracleGetSession at the current level, and a statement that writes
  abbrev pub writes : ℕ → System → Option System
  writes x y =
      on_some (λ z. some (wrote x z))
        (effect y (oracle_set_savepoint oci none y.nest_level (started y.world)))

  -- The callback at the end of a subtransaction.
  abbrev pub ends : SubXactEvent → System → Option System
  ends event y =
      on_some (λ z. some (left z))
        (effect y (subtransaction_callback oci event true y.nest_level y.world))

  abbrev pub does : Op → System → Option System
  does Op.begin_sub y = some (record y { nest_level = y.nest_level + 1 })
  does (Op.write x) y = writes x y
  does Op.commit_sub y = ends SubXactEvent.pre_commit_sub y
  does Op.abort_sub y = ends SubXactEvent.abort_sub y

abbrev pub run {ℓ} : {S : Type ℓ} → (Op → S → Option S) → List Op → S → Option S
run step [] s = some s
run step (op ∷ ops) s = on_some (run step ops) (step op s)
