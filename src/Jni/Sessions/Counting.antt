-- ===== src/Jni/Sessions/Counting.antt =====
-- The sessions that are found, and that remain, after registerSession and unregisterSession.
use oracle_fdw.Base.{
  ℕ, suc, ◌+◌, ◌-◌, ◌<◌, ◌≡◌, refl, ap, ◌∙◌, Bool, true, false, List, [], ◌∷◌, ◌++◌, Option, none,
  some, Bytes, length, ◌==◌, if◌then◌else◌, arith, ==_self, Bool-cases, inl, inr,
}
use oracle_fdw.Jni.Types.{equal}
use oracle_fdw.Jni.Sessions.{
  Session, Cache, cache_key_value, register_session, matches, find_first, find_session, last_of,
  drop_last, overwrite, keep, or_same, unregister_from, unregister_session,
}

-- How many entries have the address.
abbrev pub count : ℕ → List Session → ℕ
count address [] = 0
count address (s ∷ ss) =
    let rest = count address ss in if s.address == address then suc rest else rest

count-drop_last :
    (b : ℕ) (s : Session) (ss : List Session)
    → count b (s ∷ ss) ≡ count b (last_of s ss ∷ drop_last (s ∷ ss))
unfolding last_of drop_last
count-drop_last b s [] = refl
count-drop_last b s (t ∷ ss) = ground (arith, count-drop_last b t ss)

abbrev one : Bool → ℕ
one true = 1
one false = 0

-- What overwriting leaves of the entries, counted at the address `b`.
abbrev IsOverwritten : ℕ → ℕ → Session → List Session → Option (List Session) → Type 0
IsOverwritten a b last ss none = count a ss ≡ 0
IsOverwritten a b last ss (some []) = length ss < 0
IsOverwritten a b last ss (some (t ∷ ts)) =
    (count b (last ∷ ss) ≡ count b (t ∷ ts) + one (a == b)) × (last_of t ts ≡ last)

IsOverwritten-keep :
    (a b : ℕ) (last s : Session) (ss : List Session) (r : Option (List Session))
    → (s.address == a) ≡ false
    → IsOverwritten a b last ss r
    → IsOverwritten a b last (s ∷ ss) (keep s r)
unfolding last_of
IsOverwritten-keep a b last s ss none e h = rw e h
IsOverwritten-keep a b last s ss (some []) e h = absurd (omega (arith, h))
IsOverwritten-keep a b last s ss (some (t ∷ ts)) e h = (ground (arith, h.0), h.1)

IsOverwritten-found :
    (a b : ℕ) (last s : Session) (ss : List Session)
    → (s.address == a) ≡ true
    → last_of s ss ≡ last
    → IsOverwritten a b last (s ∷ ss) (some (last ∷ ss))
unfolding last_of
IsOverwritten-found a b last s [] e l = (ground (arith, e), refl)
IsOverwritten-found a b last s (t ∷ ss) e l = (ground (arith, e), l)

overwrite-IsOverwritten :
    (a b : ℕ) (last s : Session) (ss : List Session)
    → last_of s ss ≡ last
    → IsOverwritten a b last (s ∷ ss) (overwrite a last (s ∷ ss))
unfolding overwrite last_of
overwrite-IsOverwritten a b last s [] l = elim (Bool-cases (s.address == a)) [
  | inl e ↦ rw e (IsOverwritten-found a b last s [] e l)
  | inr e ↦ rw e (IsOverwritten-keep a b last s [] none e refl)
]
overwrite-IsOverwritten a b last s (t ∷ ss) l = elim (Bool-cases (s.address == a)) [
  | inl e ↦ rw e (IsOverwritten-found a b last s (t ∷ ss) e l)
  | inr e ↦ rw e (
      IsOverwritten-keep a b last s (t ∷ ss) (overwrite a last (t ∷ ss)) e
        (overwrite-IsOverwritten a b last t ss l))
]

-- What the entries are after unregistering: those with the address are one less, if there were any,
-- and those with another address `b` are as many.
abbrev pub IsUnregistered : ℕ → ℕ → List Session → List Session → Type 0
IsUnregistered a b ss ts =
    (count a ts ≡ count a ss - 1) × ((a == b) ≡ false → count b ts ≡ count b ss)

count-cons :
    (b : ℕ) (s : Session) (ss : List Session) → count b (s ∷ ss) ≡ one (s.address == b) + count b ss
count-cons b s ss = elim (Bool-cases (s.address == b)) [
  | inl e ↦ rw e (omega arith)
  | inr e ↦ rw e (omega arith)
]

-- One entry at the address less.
count-overwritten :
    (a c : ℕ) (last t : Session) (ss ts : List Session)
    → IsOverwritten a c last ss (some (t ∷ ts))
    → count c ss ≡ count c (drop_last (t ∷ ts)) + one (a == c)
count-overwritten a c last t ss ts h =
    let dropped : count c (t ∷ ts) ≡ count c (last ∷ drop_last (t ∷ ts)) =
      count-drop_last c t ts ∙ ap (λ l. count c (l ∷ drop_last (t ∷ ts))) h.1 in
    omega (arith, dropped, h.0, count-cons c last ss, count-cons c last (drop_last (t ∷ ts)))

or_same-IsUnregistered :
    (a b : ℕ) (cache : Cache) (last : Session) (ss : List Session) (r : Option (List Session))
    → cache.sessions ≡ ss
    → ((c : ℕ) → IsOverwritten a c last ss r)
    → IsUnregistered a b ss (or_same cache r).sessions
or_same-IsUnregistered a b cache last ss none e h = rw e (omega (arith, h a), λ n. refl)
or_same-IsUnregistered a b cache last ss (some []) e h = absurd (omega (arith, h a))
or_same-IsUnregistered a b cache last ss (some (t ∷ ts)) e h =
    let self : one (a == a) ≡ 1 = ap one (==_self a) in
    (
      omega (arith, self, ap (count a) e, count-overwritten a a last t ss ts (h a)),
      λ n. omega (arith, ap one n, count-overwritten a b last t ss ts (h b)),
    )

-- Unregistering a session takes one entry with its address out of the array, if there is one, and
-- keeps all others: what is found under another address is counted as before.
pub unregister_session-IsUnregistered :
    (a b : ℕ) (cache : Cache)
    → IsUnregistered a b cache.sessions (unregister_session a cache).sessions
unfolding unregister_session
unregister_session-IsUnregistered a b cache = unregistered cache.sessions refl
  where
    unregistered :
        (ss : List Session)
        → cache.sessions ≡ ss
        → IsUnregistered a b ss (or_same cache (unregister_from a cache ss)).sessions
    unregistered [] e = rw e (refl, λ n. refl)
    unregistered (s ∷ ss) e =
        or_same-IsUnregistered a b cache (last_of s ss) (s ∷ ss)
          (overwrite a (last_of s ss) (s ∷ ss)) e
          (λ c. overwrite-IsOverwritten a c (last_of s ss) s ss refl)

find_first-register :
    (test : Session → Bool) (s : Session) (ss : List Session)
    → find_first test ss ≡ none
    → test s ≡ true
    → find_first test (ss ++ (s ∷ [])) ≡ some s
unfolding find_first
find_first-register test s [] h t = rw t refl
find_first-register test s (x ∷ ss) h t = elim (Bool-cases (test x)) [
  | inl e ↦ absurd (cc (rw e at h))
  | inr e ↦ rw e (find_first-register test s ss (rw e at h) t)
]

pub equal_self : (s : Bytes) → equal s s ≡ true
equal_self [] = refl
equal_self (c ∷ cs) = ground (arith, equal_self cs)

matches_self :
    (s : Session) → s.has_backend ≡ true → matches s.connectstring s.user s.password s ≡ true
unfolding matches
matches_self s b = rw b (
    rw (equal_self (cache_key_value s.connectstring)) (
      rw (equal_self (cache_key_value s.user)) (rw (equal_self (cache_key_value s.password)) refl)))

-- A session with a backend is found under its own key once it is registered, if no session was found
-- before.
pub find_session-register_session :
    (state : Session) (cache : Cache)
    → state.has_backend ≡ true
    → find_session state.connectstring state.user state.password cache ≡ none
    → find_session state.connectstring state.user state.password (register_session state cache)
      ≡ some state
unfolding find_session register_session
find_session-register_session state cache b h =
    find_first-register (matches state.connectstring state.user state.password) state cache.sessions
      h (matches_self state b)
