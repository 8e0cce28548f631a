-- ===== src/Jni/Sessions.antt =====
-- oracle_utils_jni.c, registerSession, findSession and unregisterSession: the array of the open
-- sessions. A session is known by its address.
pub mod Counting
use oracle_fdw.Base.{
  ℕ, suc, ◌+◌, ◌-◌, ◌*◌, ◌≤◌, ◌<◌, ◌≡◌, refl, ap, ◌∙◌, Bool, true, false, ◌&&◌, List, [], ◌∷◌, ◌++◌,
  Option, none, some, Bytes, length, ◌==◌, if◌then◌else◌, arith, append_assoc, eq_of_==, ==_self,
  Bool-cases, inl, inr,
}
use oracle_fdw.Jni.Types.{equal}

-- The members of JniSessionState that the search reads; none is a NULL pointer.
pub record Session : Type 0 where
  pub address : ℕ
  pub has_backend : Bool
  pub connectstring : Option Bytes
  pub user : Option Bytes
  pub password : Option Bytes

-- sessions, up to session_count, and session_capacity
pub record Cache : Type 0 where
  pub sessions : List Session
  pub capacity : ℕ

unfoldable pub cache_key_value : Option Bytes → Bytes
cache_key_value none = []
cache_key_value (some value) = value

unfoldable pub register_session : Session → Cache → Cache
register_session state cache = record {
  sessions = cache.sessions ++ (state ∷ []);
  capacity =
      if length cache.sessions == cache.capacity
      then (if cache.capacity == 0 then 8 else cache.capacity * 2)
      else cache.capacity;
}

-- The three comparisons with the key of a session.
unfoldable pub matches : Option Bytes → Option Bytes → Option Bytes → Session → Bool
matches connectstring user password state =
    state.has_backend
    && equal (cache_key_value state.connectstring) (cache_key_value connectstring)
    && equal (cache_key_value state.user) (cache_key_value user)
    && equal (cache_key_value state.password) (cache_key_value password)

-- The first session that passes the test.
unfoldable pub find_first : (Session → Bool) → List Session → Option Session
find_first test [] = none
find_first test (s ∷ ss) = let later = find_first test ss in if test s then some s else later

unfoldable pub find_session : Option Bytes → Option Bytes → Option Bytes → Cache → Option Session
find_session connectstring user password cache =
    find_first (matches connectstring user password) cache.sessions

-- sessions[session_count - 1], with `s` at the front
unfoldable pub last_of : Session → List Session → Session
last_of s [] = s
last_of s (t ∷ ss) = last_of t ss

-- The entries below the last one.
unfoldable pub drop_last : List Session → List Session
drop_last [] = []
drop_last (s ∷ []) = []
drop_last (s ∷ t ∷ ss) = s ∷ drop_last (t ∷ ss)

abbrev pub keep : Session → Option (List Session) → Option (List Session)
keep s none = none
keep s (some ss) = some (s ∷ ss)

-- The loop: the entry at the address is overwritten by `last`; none if there is none.
unfoldable pub overwrite : ℕ → Session → List Session → Option (List Session)
overwrite address last [] = none
overwrite address last (s ∷ ss) =
    let later = overwrite address last ss in
    if s.address == address then some (last ∷ ss) else keep s later

abbrev pub or_same : Cache → Option (List Session) → Cache
or_same cache none = cache
or_same cache (some ss) = record cache { sessions = drop_last ss }

abbrev pub unregister_from : ℕ → Cache → List Session → Option (List Session)
unregister_from address cache [] = none
unregister_from address cache (s ∷ ss) = overwrite address (last_of s ss) (s ∷ ss)

unfoldable pub unregister_session : ℕ → Cache → Cache
unregister_session address cache = or_same cache (unregister_from address cache cache.sessions)
