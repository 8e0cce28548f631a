-- ===== src/Utils/Cache.antt =====
-- oracle_utils.c, the cache of environments, servers and sessions: closeSession, disconnectServer,
-- removeEnvironment and oracleCloseConnections. Releasing handles and memory is left out.
pub mod Closing
use oracle_fdw.Base.{
  ℕ, zero, suc, Bool, true, false, ◌&&◌, ◌||◌, not, List, [], ◌∷◌, Option, none, some, length, ◌==◌,
  if◌then◌else◌,
}

-- connEntry: its address, with which the callbacks are registered, and its session handle
pub record Conn : Type 0 where
  pub connp : ℕ
  pub userhp : ℕ

-- srvEntry
pub record Server : Type 0 where
  pub srvhp : ℕ
  pub connlist : List Conn

-- envEntry
pub record Env : Type 0 where
  pub envhp : ℕ
  pub srvlist : List Server

-- The static variables envlist and silent, and the connections whose callbacks are registered.
pub record Handles : Type 0 where
  pub envlist : List Env
  pub silent : Bool
  pub callbacks : List ℕ

pub data Failure : Type 0 where
  env_not_found server_not_found user_not_found : Failure
  session_end_failed attr_get_failed detach_failed : Failure

abbrev pub Run : Type 0
Run = Handles × Option Failure

infixl 5 ◌then◌
abbrev pub ◌then◌ : Run → (Handles → Run) → Run
(s, none) then f = f s
(s, some e) then f = (s, some e)

-- Whether OCISessionEnd, OCIAttrGet and OCIServerDetach succeed.
pub record Calls : Type 0 where
  pub session_end : ℕ → Bool
  pub attr_get : ℕ → Bool
  pub server_detach : ℕ → Bool

module _ {A : Type 0} where
  abbrev pub find_entry : (A → Bool) → List A → Option A
  find_entry p [] = none
  find_entry p (x ∷ xs) = let rest = find_entry p xs in if p x then some x else rest

  -- The entry that the search stops at is taken out.
  abbrev pub remove_entry : (A → Bool) → List A → List A
  remove_entry p [] = []
  remove_entry p (x ∷ xs) = let rest = remove_entry p xs in if p x then xs else x ∷ rest

  -- It is changed in its place.
  abbrev pub change_entry : (A → Bool) → (A → A) → List A → List A
  change_entry p f [] = []
  change_entry p f (x ∷ xs) = let rest = change_entry p f xs in if p x then f x ∷ xs else x ∷ rest

abbrev pub is_env : ℕ → Env → Bool
is_env envhp e = e.envhp == envhp

abbrev pub is_server : ℕ → Server → Bool
is_server srvhp v = v.srvhp == srvhp

abbrev pub is_conn : ℕ → Conn → Bool
is_conn userhp c = c.userhp == userhp

-- A search that fails is silent, or reports.
abbrev pub found : {A : Type 0} → Handles → Failure → (A → Run) → Option A → Run
found s e f none = (s, if s.silent then none else some e)
found s e f (some x) = f x

abbrev pub change_servers : ℕ → (List Server → List Server) → Handles → Handles
change_servers envhp f s = record s {
  envlist = change_entry (is_env envhp) (λ e. record e { srvlist = f e.srvlist }) s.envlist;
}

abbrev pub unregister : ℕ → List ℕ → List ℕ
unregister connp callbacks = remove_entry (λ c. c == connp) callbacks

abbrev pub is_last : List Conn → Bool
is_last [] = true
is_last (c ∷ cs) = false

module _ (oci : Calls) where
  unfoldable pub disconnect_server : ℕ → ℕ → Handles → Run
  disconnect_server envhp srvhp s =
      found s env_not_found
        (λ env.
          found s server_not_found
            (λ srv.
              if not (oci.server_detach srvhp) && not s.silent
              then (s, some detach_failed)
              else (change_servers envhp (remove_entry (is_server srvhp)) s, none))
            (find_entry (is_server srvhp) env.srvlist))
        (find_entry (is_env envhp) s.envlist)

  -- The session leaves the cache before the server is disconnected, and its callbacks are unregistered
  -- after that.
  abbrev pub leave : ℕ → ℕ → Bool → Server → Conn → Handles → Run
  leave envhp srvhp disconnect srv conn s =
      let conns = remove_entry (is_conn conn.userhp) srv.connlist in
      let without =
        change_servers envhp (change_entry (is_server srvhp) (λ v. record v { connlist = conns }))
          s in
      (if disconnect && is_last conns
        then disconnect_server envhp srvhp without
        else (without, none))
      then λ t. (record t { callbacks = unregister conn.connp t.callbacks }, none)

  unfoldable pub close_session : ℕ → ℕ → ℕ → Bool → Handles → Run
  close_session envhp srvhp userhp disconnect s =
      found s env_not_found
        (λ env.
          found s server_not_found
            (λ srv.
              found s user_not_found
                (λ conn.
                  if not (oci.session_end userhp) && not s.silent
                  then (s, some session_end_failed)
                  else if not (oci.attr_get userhp) && not s.silent
                  then (s, some attr_get_failed)
                  else leave envhp srvhp disconnect srv conn s)
                (find_entry (is_conn userhp) srv.connlist))
            (find_entry (is_server srvhp) env.srvlist))
        (find_entry (is_env envhp) s.envlist)

  unfoldable pub remove_environment : ℕ → Handles → Run
  remove_environment envhp s =
      found s env_not_found
        (λ env. (record s { envlist = remove_entry (is_env envhp) s.envlist }, none))
        (find_entry (is_env envhp) s.envlist)

  -- One round of a loop, if its condition holds.
  abbrev pub round : {A : Type 0} → Handles → (A → Run) → Option A → Run
  round s f none = (s, none)
  round s f (some a) = f a

  -- envlist->srvlist->connlist, with its handles, or none if it is NULL; the loops around make sure
  -- that the other pointers are not.
  abbrev pub first_conn : List Env → Option (ℕ × ℕ × ℕ)
  first_conn [] = none
  first_conn (e ∷ es) = of_servers e.srvlist
    where
      of_conns : ℕ → List Conn → Option (ℕ × ℕ × ℕ)
      of_conns srvhp [] = none
      of_conns srvhp (c ∷ cs) = some (e.envhp, srvhp, c.userhp)

      of_servers : List Server → Option (ℕ × ℕ × ℕ)
      of_servers [] = none
      of_servers (v ∷ vs) = of_conns v.srvhp v.connlist

  -- envlist->srvlist, with the number of its sessions
  abbrev pub first_server : List Env → Option (ℕ × ℕ × ℕ)
  first_server [] = none
  first_server (e ∷ es) = of_servers e.srvlist
    where
      of_servers : List Server → Option (ℕ × ℕ × ℕ)
      of_servers [] = none
      of_servers (v ∷ vs) = some (e.envhp, v.srvhp, length v.connlist)

  -- envlist, with the number of its servers
  abbrev pub first_env : List Env → Option (ℕ × ℕ)
  first_env [] = none
  first_env (e ∷ es) = some (e.envhp, length e.srvlist)

  -- The three loops, for at most `fuel` rounds.
  unfoldable pub close_sessions : ℕ → Handles → Run
  close_sessions zero s = (s, none)
  close_sessions (suc fuel) s =
      round s
        (λ (envhp, srvhp, userhp).
          close_session envhp srvhp userhp false s then close_sessions fuel)
        (first_conn s.envlist)

  unfoldable pub close_servers : ℕ → Handles → Run
  close_servers zero s = (s, none)
  close_servers (suc fuel) s =
      round s
        (λ (envhp, srvhp, n).
          close_sessions n s then disconnect_server envhp srvhp then close_servers fuel)
        (first_server s.envlist)

  unfoldable pub close_environments : ℕ → Handles → Run
  close_environments zero s = (s, none)
  close_environments (suc fuel) s =
      round s
        (λ (envhp, n). close_servers n s then remove_environment envhp then close_environments fuel)
        (first_env s.envlist)

  unfoldable pub oracle_close_connections : Handles → Run
  oracle_close_connections s = close_environments (length s.envlist) s
