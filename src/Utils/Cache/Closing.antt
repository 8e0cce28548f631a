-- ===== src/Utils/Cache/Closing.antt =====
-- oracleCloseConnections, when PostgreSQL ends its process: errors are silent.
use oracle_fdw.Base.{
  ℕ, ◌≡◌, refl, Bool, true, false, ◌&&◌, not, List, [], ◌∷◌, none, length, ==_self,
}
use oracle_fdw.Utils.Cache.{
  Conn, Server, Env, Handles, Calls, unregister, disconnect_server, close_session,
  remove_environment, close_sessions, close_servers, close_environments, oracle_close_connections,
}

-- The callbacks of the sessions, of the servers and of the environments are unregistered.
abbrev pub without_conns : List Conn → List ℕ → List ℕ
without_conns [] callbacks = callbacks
without_conns (c ∷ cs) callbacks = without_conns cs (unregister c.connp callbacks)

abbrev pub without_servers : List Server → List ℕ → List ℕ
without_servers [] callbacks = callbacks
without_servers (v ∷ vs) callbacks = without_servers vs (without_conns v.connlist callbacks)

abbrev pub without_envs : List Env → List ℕ → List ℕ
without_envs [] callbacks = callbacks
without_envs (e ∷ es) callbacks = without_envs es (without_servers e.srvlist callbacks)

abbrev pub quiet : List Env → List ℕ → Handles
quiet envs callbacks = record { envlist = envs; silent = true; callbacks = callbacks }

abbrev with_conns : ℕ → ℕ → List Conn → List Server → List Env → List Env
with_conns envhp srvhp cs vs es =
    record { envhp = envhp; srvlist = record { srvhp = srvhp; connlist = cs } ∷ vs } ∷ es

and_false : (b : Bool) → not b && false ≡ false
and_false true = refl
and_false false = refl

module _ (oci : Calls) where
  close_first_session :
      (envhp srvhp : ℕ) (c : Conn) (cs : List Conn) (vs : List Server) (es : List Env)
      (callbacks : List ℕ)
      → close_session oci envhp srvhp c.userhp false
          (quiet (with_conns envhp srvhp (c ∷ cs) vs es) callbacks)
        ≡ (quiet (with_conns envhp srvhp cs vs es) (unregister c.connp callbacks), none)
  unfolding close_session
  close_first_session envhp srvhp c cs vs es callbacks = rw (==_self envhp) (
      rw (==_self srvhp) (
        rw (==_self c.userhp) (
          rw (and_false (oci.session_end c.userhp))
            (rw (and_false (oci.attr_get c.userhp)) (rw (==_self c.userhp) refl)))))

  close_sessions_lem :
      (envhp srvhp : ℕ) (cs : List Conn) (vs : List Server) (es : List Env) (callbacks : List ℕ)
      → close_sessions oci (length cs) (quiet (with_conns envhp srvhp cs vs es) callbacks)
        ≡ (quiet (with_conns envhp srvhp [] vs es) (without_conns cs callbacks), none)
  unfolding close_sessions
  close_sessions_lem envhp srvhp [] vs es callbacks = refl
  close_sessions_lem envhp srvhp (c ∷ cs) vs es callbacks =
      rw (close_first_session envhp srvhp c cs vs es callbacks)
        (close_sessions_lem envhp srvhp cs vs es (unregister c.connp callbacks))

  disconnect_first_server :
      (envhp srvhp : ℕ) (vs : List Server) (es : List Env) (callbacks : List ℕ)
      → disconnect_server oci envhp srvhp (quiet (with_conns envhp srvhp [] vs es) callbacks)
        ≡ (quiet (record { envhp = envhp; srvlist = vs } ∷ es) callbacks, none)
  unfolding disconnect_server
  disconnect_first_server envhp srvhp vs es callbacks =
      rw (==_self envhp) (rw (==_self srvhp) (rw (and_false (oci.server_detach srvhp)) refl))

  close_servers_lem :
      (envhp : ℕ) (vs : List Server) (es : List Env) (callbacks : List ℕ)
      → close_servers oci
          (length vs)
          (quiet (record { envhp = envhp; srvlist = vs } ∷ es) callbacks)
        ≡ (quiet (record { envhp = envhp; srvlist = [] } ∷ es) (without_servers vs callbacks), none)
  unfolding close_servers
  close_servers_lem envhp [] es callbacks = refl
  close_servers_lem envhp (v ∷ vs) es callbacks =
      rw (close_sessions_lem envhp v.srvhp v.connlist vs es callbacks) (
        rw (disconnect_first_server envhp v.srvhp vs es (without_conns v.connlist callbacks))
          (close_servers_lem envhp vs es (without_conns v.connlist callbacks)))

  remove_first_environment :
      (envhp : ℕ) (es : List Env) (callbacks : List ℕ)
      → remove_environment oci envhp (quiet (record { envhp = envhp; srvlist = [] } ∷ es) callbacks)
        ≡ (quiet es callbacks, none)
  unfolding remove_environment
  remove_first_environment envhp es callbacks = rw (==_self envhp) refl

  close_environments_lem :
      (es : List Env) (callbacks : List ℕ)
      → close_environments oci (length es) (quiet es callbacks)
        ≡ (quiet [] (without_envs es callbacks), none)
  unfolding close_environments
  close_environments_lem [] callbacks = refl
  close_environments_lem (e ∷ es) callbacks =
      rw (close_servers_lem e.envhp e.srvlist es callbacks) (
        rw (remove_first_environment e.envhp es (without_servers e.srvlist callbacks))
          (close_environments_lem es (without_servers e.srvlist callbacks)))

  -- When errors are silent, oracleCloseConnections ends, after one round of its loops for each
  -- environment, each server and each session, whatever OCI answers, without a report and with an empty
  -- cache, and the callbacks of all sessions in the cache are unregistered.
  pub oracle_close_connections_lem :
      (es : List Env) (callbacks : List ℕ)
      → oracle_close_connections oci (quiet es callbacks)
        ≡ (quiet [] (without_envs es callbacks), none)
  unfolding oracle_close_connections
  oracle_close_connections_lem es callbacks = close_environments_lem es callbacks
