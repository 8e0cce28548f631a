-- ===== src/Tests/Sessions.antt =====
-- The array of open sessions at concrete inputs.
use oracle_fdw.Base.{ℕ, ◌≡◌, refl, true, [], ◌∷◌, none, some}
use oracle_fdw.Jni.Sessions.{
  Session, Cache, register_session, find_session, find_first, matches, unregister_session,
  overwrite, drop_last, last_of, cache_key_value,
}
use oracle_fdw.Jni.Sessions.Counting.{
  IsUnregistered, unregister_session-IsUnregistered, find_session-register_session,
}

abbrev session : ℕ → ℕ → Session
session address user = record {
  address = address;
  has_backend = true;
  connectstring = some (b'x' ∷ []);
  user = some (user ∷ []);
  password = none;
}

abbrev cache : Cache
cache = record {
  sessions = session 100 b'a' ∷ session 200 b'b' ∷ session 300 b'c' ∷ [];
  capacity = 8;
}

unregister_session-first :
    unregister_session 100 cache
    ≡ record { sessions = session 300 b'c' ∷ session 200 b'b' ∷ []; capacity = 8 }
unfolding unregister_session overwrite drop_last last_of
unregister_session-first = refl

unregister_session-IsUnregistered_example :
    IsUnregistered 100 200 cache.sessions (unregister_session 100 cache).sessions
unregister_session-IsUnregistered_example = unregister_session-IsUnregistered 100 200 cache

find_session-cache : find_session (some (b'x' ∷ [])) (some (b'd' ∷ [])) none cache ≡ none
unfolding find_session find_first matches cache_key_value
find_session-cache = refl

find_session-register_session_example :
    find_session
      (some (b'x' ∷ []))
      (some (b'd' ∷ []))
      none
      (register_session (session 400 b'd') cache)
    ≡ some (session 400 b'd')
find_session-register_session_example =
    find_session-register_session (session 400 b'd') cache refl find_session-cache
