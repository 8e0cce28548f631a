-- ===== src/Tests/Cache.antt =====
-- Closing the cache of connections at concrete inputs.
use oracle_fdw.Base.{◌≡◌, refl, true, false, List, [], ◌∷◌, none, some}
use oracle_fdw.Utils.Cache.{
  Conn, Env, Handles, Calls, detach_failed, disconnect_server, close_session,
  oracle_close_connections,
}
use oracle_fdw.Utils.Cache.Closing.{quiet, oracle_close_connections_lem}

abbrev envs : List Env
envs =
    record {
      envhp = 1;
      srvlist =
          record {
            srvhp = 2;
            connlist = record { connp = 50; userhp = 3 } ∷ record { connp = 60; userhp = 4 } ∷ [];
          }
          ∷ record { srvhp = 5; connlist = record { connp = 70; userhp = 6 } ∷ [] }
          ∷ [];
    }
    ∷ record { envhp = 7; srvlist = [] }
    ∷ []

-- Nothing succeeds.
abbrev broken : Calls
broken = record { session_end = λ h. false; attr_get = λ h. false; server_detach = λ h. false }

oracle_close_connections_lem_example :
    oracle_close_connections broken (quiet envs (70 ∷ 60 ∷ 50 ∷ [])) ≡ (quiet [] [], none)
oracle_close_connections_lem_example = oracle_close_connections_lem broken envs (70 ∷ 60 ∷ 50 ∷ [])

-- The server cannot be disconnected: the session is gone, but its callbacks stay registered.
abbrev stuck : Calls
stuck = record { session_end = λ h. true; attr_get = λ h. true; server_detach = λ h. false }

abbrev one_session : List Conn → Handles
one_session cs = record {
  envlist = record { envhp = 1; srvlist = record { srvhp = 2; connlist = cs } ∷ [] } ∷ [];
  silent = false;
  callbacks = 50 ∷ [];
}

close_session-stuck :
    close_session stuck 1 2 3 true (one_session (record { connp = 50; userhp = 3 } ∷ []))
    ≡ (one_session [], some detach_failed)
unfolding close_session disconnect_server
close_session-stuck = refl
