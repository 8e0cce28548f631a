-- ===== src/Utils/Nesting/Refinement.antt =====
-- Subtransactions of PostgreSQL are implemented by savepoints: the refinement.
use oracle_fdw.Base.{
  on_some, ℕ, zero, suc, ◌+◌, ◌-◌, ◌≤◌, ◌<◌, ◌≡◌, refl, ap, ◌∙◌, ◌⊎◌, inl, inr, true, false, List,
  [], ◌∷◌, ◌++◌, Option, none, some, ◌==◌, arith,
}
use oracle_fdw.Utils.Statements.{Sql, Calls, Succeeds}
use oracle_fdw.Utils.Transactions.{
  writable, savepoints, oracle_set_savepoint_lem, oracle_end_subtransaction-abort,
  oracle_end_subtransaction-commit, oracle_end_subtransaction-unknown,
}
use oracle_fdw.Utils.Callbacks.{SubXactEvent, subtransaction_callback}
use oracle_fdw.Utils.Nesting.{
  Save, Db, Op, Meaning, means, System, writes, ends, does, run, replay, execute, forget,
}
use oracle_fdw.Utils.Nesting.Saves.{
  level_of, IsKept, IsKept-savepoint, IsKept-release, back_to-IsKept,
}

-- `level` is xact_level. Oracle knows no savepoint of the levels above it, and nothing has been
-- written since they began; it keeps those up to it.
abbrev pub Agrees : ℕ → List ℕ → List (List ℕ) → List Save → Type 0
Agrees level written [] saves = level ≤ 1
Agrees level written (d ∷ ds) saves =
    ((level < level_of (d ∷ ds)) × (d ≡ written) × Agrees level written ds saves)
    ⊎ ((level ≡ level_of (d ∷ ds)) × IsKept (d ∷ ds) saves)

Agrees-le :
    (level : ℕ) (written : List ℕ) (begun : List (List ℕ)) (saves : List Save)
    → Agrees level written begun saves
    → level ≤ level_of begun
Agrees-le level written [] saves h = h
Agrees-le level written (d ∷ ds) saves (inl h) = omega (arith, h.0)
Agrees-le level written (d ∷ ds) saves (inr h) = omega (arith, h.0)

Agrees-kept :
    (written : List ℕ) (begun : List (List ℕ)) (saves : List Save)
    → IsKept begun saves
    → Agrees (level_of begun) written begun saves
Agrees-kept written [] saves h = omega arith
Agrees-kept written (d ∷ ds) saves h = inr (refl, h)

-- A transaction that is started knows no savepoint.
Agrees-started :
    (written : List ℕ) (begun : List (List ℕ)) (saves : List Save)
    → Agrees 0 written begun saves
    → Agrees 1 written begun saves
Agrees-started written [] saves h = omega arith
Agrees-started written (d ∷ ds) saves (inl h) =
    inl (omega arith, h.1, Agrees-started written ds saves h.2)
Agrees-started written (d ∷ ds) saves (inr h) = absurd (omega (arith, h.0))

replay-append :
    (ps qs : List Sql) (db : Db) → replay (ps ++ qs) db ≡ on_some (replay qs) (replay ps db)
replay-append [] qs db = refl
replay-append (p ∷ ps) qs db =
    elim (execute p db)
      as (λ r. on_some (replay (ps ++ qs)) r ≡ on_some (replay qs) (on_some (replay ps) r)) [
        | none ↦ refl
        | some db' ↦ replay-append ps qs db'
      ]

savepoints-suc :
    (n level : ℕ)
    → savepoints (suc n) level ≡ savepoints n level ++ (Sql.savepoint (level + n + 1) ∷ [])
savepoints-suc zero level = ap (λ k. Sql.savepoint k ∷ []) (omega arith)
savepoints-suc (suc n) level =
    let last : level + 1 + n + 1 ≡ level + suc n + 1 = omega arith in
    ap (λ qs. Sql.savepoint (level + 1) ∷ qs) (savepoints-suc n (level + 1) ∙ rw last refl)

replay-last :
    (n level : ℕ) (db : Db)
    → replay (savepoints (suc n) level) db
      ≡ on_some (replay (Sql.savepoint (level + n + 1) ∷ [])) (replay (savepoints n level) db)
replay-last n level db =
    ap (λ qs. replay qs db) (savepoints-suc n level)
    ∙ replay-append (savepoints n level) (Sql.savepoint (level + n + 1) ∷ []) db

abbrev database : List ℕ → List ℕ → List Save → Db
database base written saves = record { base = base; written = written; saves = saves }

-- The savepoints that are missing.
replay-savepoints :
    (begun : List (List ℕ)) (level : ℕ) (base written : List ℕ) (saves : List Save)
    → 1 ≤ level
    → Agrees level written begun saves
    → (saves' : List Save) × (replay
          (savepoints (level_of begun - level) level)
          (database base written saves)
        ≡ some (database base written saves'))
      × IsKept begun saves'
replay-savepoints [] level base written saves p h =
    let rounds : 1 - level ≡ 0 = omega (arith, p) in (saves, rw rounds refl, tt)
replay-savepoints (d ∷ ds) level base written saves p (inr h) =
    let rounds : level_of (d ∷ ds) - level ≡ 0 = omega (arith, h.0) in (saves, rw rounds refl, h.1)
replay-savepoints (d ∷ ds) level base written saves p (inl (l, e, h)) =
    let (known, sent, kept) = replay-savepoints ds level base written saves p h in
    let rounds : level_of (d ∷ ds) - level ≡ suc (level_of ds - level) = omega (arith, l) in
    let last : level + (level_of ds - level) + 1 ≡ level_of (d ∷ ds) = omega (arith, l) in
    (
      record { name = level_of (d ∷ ds); kept = d } ∷ forget (level_of (d ∷ ds)) known,
      rw rounds (
          replay-last (level_of ds - level) level (database base written saves)
          ∙ rw sent (rw last (rw e refl))),
      IsKept-savepoint d ds known kept,
    )

abbrev pub system : ℕ → ℕ → List ℕ → List ℕ → List Save → System
system nest_level level base written saves = record {
  nest_level = nest_level;
  world = writable level [] [];
  db = database base written saves;
}

-- The program with Oracle is in a state that stands for what PostgreSQL means.
abbrev pub Refines : Meaning → System → Type 0
Refines s y =
    (level : ℕ) × (base : List ℕ) × (saves : List Save) × (y
      ≡ system (level_of s.begun) level base s.written saves)
    × Agrees level s.written s.begun saves

module _ (oci : Calls) (ok : Succeeds oci) where
  write-open :
      (x : ℕ) (begun : List (List ℕ)) (level : ℕ) (base written : List ℕ) (saves : List Save)
      → 1 ≤ level
      → Agrees level written begun saves
      → (y : System) × (writes oci x (system (level_of begun) level base written saves) ≡ some y)
        × Refines (record { written = x ∷ written; begun = begun }) y
  write-open x begun level base written saves p h =
      let (known, sent, kept) = replay-savepoints begun level base written saves p h in
      let top : level + (level_of begun - level) ≡ level_of begun =
        omega (arith, Agrees-le level written begun saves h) in
      let open_ : (level == 0) ≡ false = ground (arith, p) in
      (
        system (level_of begun) (level_of begun) base (x ∷ written) known,
        rw open_ (
            rw (oracle_set_savepoint_lem oci ok (level_of begun) level [] [])
              (rw sent (rw top refl))),
        (level_of begun, base, known, refl, Agrees-kept (x ∷ written) begun known kept),
      )

  write_lem :
      (x : ℕ) (begun : List (List ℕ)) (level : ℕ) (base written : List ℕ) (saves : List Save)
      → Agrees level written begun saves
      → (y : System) × (writes oci x (system (level_of begun) level base written saves) ≡ some y)
        × Refines (record { written = x ∷ written; begun = begun }) y
  write_lem x begun zero base written saves h =
      write-open x begun 1 base written saves (omega arith) (Agrees-started written begun saves h)
  write_lem x begun (suc level) base written saves h =
      write-open x begun (suc level) base written saves (omega arith) h

  commit_lem :
      (d : List ℕ) (ds : List (List ℕ)) (level : ℕ) (base written : List ℕ) (saves : List Save)
      → Agrees level written (d ∷ ds) saves
      → (y : System) × (ends oci SubXactEvent.pre_commit_sub
            (system (level_of (d ∷ ds)) level base written saves)
          ≡ some y)
        × Refines (record { written = written; begun = ds }) y
  unfolding subtransaction_callback
  commit_lem d ds level base written saves (inl (l, e, h)) =
      let outer : level_of (d ∷ ds) - 1 ≡ level_of ds = omega arith in
      (
        system (level_of ds) level base written saves,
        rw (oracle_end_subtransaction-unknown oci (level_of (d ∷ ds)) level true [] [] l)
            (rw outer refl),
        (level, base, saves, refl, h),
      )
  commit_lem d ds level base written saves (inr (l, k)) =
      let outer : level_of (d ∷ ds) - 1 ≡ level_of ds = omega arith in
      (
        system (level_of ds) (level_of ds) base written saves,
        rw (oracle_end_subtransaction-commit oci (level_of (d ∷ ds)) level [] [] (omega (arith, l)))
            (rw outer refl),
        (
          level_of ds,
          base,
          saves,
          refl,
          Agrees-kept written ds saves (IsKept-release d ds saves k),
        ),
      )

  abort_lem :
      (d : List ℕ) (ds : List (List ℕ)) (level : ℕ) (base written : List ℕ) (saves : List Save)
      → Agrees level written (d ∷ ds) saves
      → (y : System) × (ends oci SubXactEvent.abort_sub
            (system (level_of (d ∷ ds)) level base written saves)
          ≡ some y)
        × Refines (record { written = d; begun = ds }) y
  unfolding subtransaction_callback
  abort_lem d ds level base written saves (inl (l, e, h)) =
      let outer : level_of (d ∷ ds) - 1 ≡ level_of ds = omega arith in
      (
        system (level_of ds) level base written saves,
        rw (oracle_end_subtransaction-unknown oci (level_of (d ∷ ds)) level false [] [] l)
            (rw outer refl),
        (level, base, saves, rw e refl, rw e h),
      )
  abort_lem d ds level base written saves (inr (l, k)) =
      let outer : level_of (d ∷ ds) - 1 ≡ level_of ds = omega arith in
      let (rest, sent, kept) = back_to-IsKept (database base written saves) d ds saves k in
      (
        system (level_of ds) (level_of ds) base d rest,
        rw
            (oracle_end_subtransaction-abort oci ok (level_of (d ∷ ds)) level [] []
              (omega (arith, l)))
            (rw sent (rw outer refl)),
        (level_of ds, base, rest, refl, Agrees-kept d ds rest kept),
      )

  -- Where PostgreSQL means something, the program does it.
  abbrev Follows : Option Meaning → Option System → Type 0
  Follows none r = Unit
  Follows (some s) none = true ≡ false
  Follows (some s) (some y) = Refines s y

  after_op :
      (s : Meaning) (r : Option System)
      → (y : System) × (r ≡ some y) × Refines s y
      → Follows (some s) r
  after_op s r (y, e, h) = rw e h

  does-Follows :
      (op : Op) (written : List ℕ) (begun : List (List ℕ)) (level : ℕ) (base : List ℕ)
      (saves : List Save)
      → Agrees level written begun saves
      → Follows
          (means op (record { written = written; begun = begun }))
          (does oci op (system (level_of begun) level base written saves))
  does-Follows Op.begin_sub written begun level base saves h = (
    level,
    base,
    saves,
    ap (λ n. system n level base written saves) (omega arith),
    inl (omega (arith, Agrees-le level written begun saves h), refl, h),
  )
  does-Follows (Op.write x) written begun level base saves h =
      after_op (record { written = x ∷ written; begun = begun })
        (writes oci x (system (level_of begun) level base written saves))
        (write_lem x begun level base written saves h)
  does-Follows Op.commit_sub written [] level base saves h = tt
  does-Follows Op.commit_sub written (d ∷ ds) level base saves h =
      after_op (record { written = written; begun = ds })
        (ends oci SubXactEvent.pre_commit_sub (system (level_of (d ∷ ds)) level base written saves))
        (commit_lem d ds level base written saves h)
  does-Follows Op.abort_sub written [] level base saves h = tt
  does-Follows Op.abort_sub written (d ∷ ds) level base saves h =
      after_op (record { written = d; begun = ds })
        (ends oci SubXactEvent.abort_sub (system (level_of (d ∷ ds)) level base written saves))
        (abort_lem d ds level base written saves h)

  after_ops :
      (ops : List Op) (r : Option Meaning) (q : Option System)
      → ((s : Meaning) (y : System)
          → Refines s y
          → Follows (run means ops s) (run (does oci) ops y))
      → Follows r q
      → Follows (on_some (run means ops) r) (on_some (run (does oci) ops) q)
  after_ops ops none q ih h = tt
  after_ops ops (some s) none ih h = absurd (cc h)
  after_ops ops (some s) (some y) ih h = ih s y h

  run-Follows :
      (ops : List Op) (s : Meaning) (y : System)
      → Refines s y
      → Follows (run means ops s) (run (does oci) ops y)
  run-Follows [] s y h = h
  run-Follows (op ∷ ops) s y (level, base, saves, e, h) = rw e (
      after_ops ops (means op s)
        (does oci op (system (level_of s.begun) level base s.written saves)) (run-Follows ops)
        (does-Follows op s.written s.begun level base saves h))

  written_of :
      (r : Option Meaning) (q : Option System) (s : Meaning)
      → r ≡ some s
      → Follows r q
      → (y : System) × (q ≡ some y) × (y.db.written ≡ s.written)
  written_of none q s e h = absurd (cc e)
  written_of (some t) none s e h = absurd (cc h)
  written_of (some t) (some y) s e (level, base, saves, f, h) = (y, refl, cc)

  -- Savepoints implement subtransactions. From the start of a transaction, for every sequence of
  -- beginnings, commits and aborts of subtransactions and of writes, to any depth, that
  -- PostgreSQL can carry out: if all calls of OCI succeed, no rollback finds its savepoint missing,
  -- and Oracle holds exactly what PostgreSQL means to have been written. The transaction is
  -- read-write, and what has been written before is `base`.
  pub run-IsMeant :
      (ops : List Op) (base : List ℕ) (s : Meaning)
      → run means ops (record { written = base; begun = [] }) ≡ some s
      → (y : System) × (run (does oci) ops (system 1 0 base base []) ≡ some y)
        × (y.db.written ≡ s.written)
  run-IsMeant ops base s e =
      let start : Meaning = record { written = base; begun = [] } in
      written_of (run means ops start) (run (does oci) ops (system 1 0 base base [])) s e
        (run-Follows ops start (system 1 0 base base []) (0, base, [], refl, omega arith))
