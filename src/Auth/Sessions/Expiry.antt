-- ===== src/Auth/Sessions/Expiry.antt =====
-- What expires, and what a request can still reach (internal/auth/session.go).
use Prim.Native.String.{len, slice}
use qtest.Prelude.{
  String, Bool, true, false, ◌≡◌, ◌≢◌, refl, ◌⊎◌, inl, inr, Option, none, some, List, [], ◌∷◌,
  arith, if◌then◌else◌, Bool-cases, str_eq_iff, All,
}
use qtest.Prelude.Assoc.{lookup, erase, lookup-erase, lookup-insert, UniqueKeys, entries-lookup}
use qtest.Prelude.Int.{◌+ℤ◌, ltb_ℤ}
use qtest.Jobs.Types.{Uuid, Time}
use qtest.Auth.Sessions
use qtest.Auth.Sessions.{
  uuid_eq, string_eq, Session, SessionStore, GitHubUser, Result, ok, err, session_not_found,
  session_expired, new_session, require_auth, has_bearer, bearer, Request, Outcome, unauthorized,
  served, is_expired,
}
use qtest.Auth.Sessions.Consistent.{IsConsistent, drop_entry, drop_entry-IsConsistent}

still_there :
    (s : SessionStore) (id : String) (u : Uuid) (rest : List (String × Session))
    → lookup id rest ≡ none
    → All (λ (e : String × Session). lookup e.0 s.sessions ≡ some e.1) rest
    → All (λ (e : String × Session). lookup e.0 (drop_entry s id u).sessions ≡ some e.1) rest
unfolding lookup
still_there s id u [] gone h = tt
still_there s id u ((k, x) ∷ rest) gone h = (
  ground (arith, lookup-erase id k s.sessions, str_eq_iff id k, str_eq_iff k id),
  still_there s id u rest (ground arith) h.1,
)

sweep-IsConsistent :
    (now : Time) (rest : List (String × Session)) (s : SessionStore)
    → IsConsistent s
    → UniqueKeys rest
    → All (λ (e : String × Session). lookup e.0 s.sessions ≡ some e.1) rest
    → IsConsistent (Sessions.sweep now rest s)
unfolding Sessions.sweep
sweep-IsConsistent now [] s c u h = c
sweep-IsConsistent now ((k, x) ∷ rest) s c u h = elim (Bool-cases (is_expired now x)) [
  | inl late ↦ rw late (
      sweep-IsConsistent now rest (drop_entry s k x.user_id) (drop_entry-IsConsistent s c k x h.0)
        u.1 (still_there s k x.user_id rest u.0 h.1))
  | inr current ↦ rw current (sweep-IsConsistent now rest s c u.1 h.1)
]

-- The clean-up keeps the maps consistent.
pub cleanup-IsConsistent :
    (now : Time) (s : SessionStore) → IsConsistent s → IsConsistent (Sessions.cleanup now s)
unfolding Sessions.cleanup
cleanup-IsConsistent now s c =
    sweep-IsConsistent now s.sessions s c c.keyed (entries-lookup s.sessions c.keyed)

abbrev pub live : Time → Option Session → Option Session
live now none = none
live now (some x) = if is_expired now x then none else some x

abbrev expired_in : Time → Option Session → Bool
expired_in now none = false
expired_in now (some x) = is_expired now x

sweep-lookup :
    (now : Time) (i : String) (rest : List (String × Session)) (s : SessionStore)
    → UniqueKeys rest
    → lookup i (Sessions.sweep now rest s).sessions
      ≡ (if expired_in now (lookup i rest) then none else lookup i s.sessions)
unfolding Sessions.sweep lookup
sweep-lookup now i [] s u = refl
sweep-lookup now i ((k, x) ∷ rest) s u = ground (
  arith,
  sweep-lookup now i rest (drop_entry s k x.user_id) u.1,
  sweep-lookup now i rest s u.1,
  lookup-erase k i s.sessions,
  str_eq_iff k i,
)

-- In a consistent store the clean-up drops the sessions that have expired by then, and no other.
cleanup-lookup :
    (now : Time) (i : String) (s : SessionStore)
    → IsConsistent s
    → lookup i (Sessions.cleanup now s).sessions ≡ live now (lookup i s.sessions)
unfolding Sessions.cleanup
cleanup-lookup now i s c = ground (arith, sweep-lookup now i s.sessions s c.keyed)

-- A stored session is handed out, with the time of access as its last, if it has not expired, and
-- one that has expired is dropped, with an error.
get-live :
    (s : SessionStore) (id : String) (now later : Time) (x : Session)
    → lookup id s.sessions ≡ some x
    → let (result, s') = Sessions.get s id now later in
      ((is_expired now x ≡ false)
        × (result ≡ ok (record x { last_access = later }))
        × (lookup id s'.sessions ≡ some (record x { last_access = later })))
      ⊎ ((is_expired now x ≡ true)
          × (result ≡ err session_expired)
          × (lookup id s'.sessions ≡ none))
unfolding Sessions.get
get-live s id now later x e = ground (
  arith,
  lookup-insert id id (record x { last_access = later }) s.sessions,
  lookup-erase id id s.sessions,
  str_eq_iff id id,
)

-- No other session is lost or changed by `Get`.
pub get-lookup_ne :
    (s : SessionStore) (id j : String) (now later : Time)
    → id ≢ j
    → lookup j (Sessions.get s id now later).1.sessions ≡ lookup j s.sessions
unfolding Sessions.get
get-lookup_ne s id j now later n = go (lookup id s.sessions) refl
  where
    go :
        (x : Option Session)
        → lookup id s.sessions ≡ x
        → lookup j (Sessions.get s id now later).1.sessions ≡ lookup j s.sessions
    go none e = rw e
    go (some x) e = ground (
      arith,
      lookup-insert id j (record x { last_access = later }) s.sessions,
      lookup-erase id j s.sessions,
      str_eq_iff id j,
    )

-- A new session takes the place of the one that its user had under another id: directly after
-- `Create`, `Get` refuses the old id at any time, and answers the new id with the new session, whose
-- last access is now, until the lifetime that the store gives it is over, and then with an error.
pub create-get :
    (s : SessionStore) (u : Uuid) (g : GitHubUser) (access refresh id old : String)
    (made now later : Time)
    → lookup u s.by_user_id ≡ some old
    → id ≢ old
    → let s' = (Sessions.create s u g access refresh (some id) made).1 in
      ((Sessions.get s' old now later).0 ≡ err session_not_found)
      × (((ltb_ℤ (made +ℤ s.ttl) now ≡ false)
            × ((Sessions.get s' id now later).0
                ≡ ok (record {
                  id = id;
                  user_id = u;
                  github_user = some g;
                  access_token = access;
                  refresh_token = refresh;
                  created_at = made;
                  expires_at = made +ℤ s.ttl;
                  last_access = later;
                })))
          ⊎ ((ltb_ℤ (made +ℤ s.ttl) now ≡ true)
              × ((Sessions.get s' id now later).0 ≡ err session_expired)))
unfolding Sessions.create Sessions.get
create-get s u g access refresh id old made now later e n =
    let x = new_session id u g access refresh made s.ttl in
    ground (
      arith,
      lookup-insert id old x (erase old s.sessions),
      lookup-insert id id x (erase old s.sessions),
      lookup-erase old old s.sessions,
      str_eq_iff id old,
      str_eq_iff old old,
      str_eq_iff id id,
    )

-- A session that the store has, live, as it is handed out at `later`.
abbrev pub IsLive : SessionStore → Time → Time → Session → Type 0
IsLive s now later x =
    (id : String) × (y : Session) × (lookup id s.sessions ≡ some y)
    × (is_expired now y ≡ false)
    × (x ≡ record y { last_access = later })

get-IsLive :
    (s : SessionStore) (id : String) (now later : Time) (x : Session)
    → (Sessions.get s id now later).0 ≡ ok x
    → IsLive s now later x
unfolding Sessions.get
get-IsLive s id now later x h = go (lookup id s.sessions) refl
  where
    go : (y : Option Session) → lookup id s.sessions ≡ y → IsLive s now later x
    go none e = absurd (ground arith)
    go (some y) e = (id, y, e, ground arith, ground arith)

extract_session-IsLive :
    (s : SessionStore) (r : Request) (now later : Time) (x : Session)
    → (Sessions.extract_session s r now later).0 ≡ ok x
    → IsLive s now later x
unfolding Sessions.extract_session
extract_session-IsLive s r now later x h = go (has_bearer r.authorization) refl r.cookie refl
  where
    go :
        (b : Bool)
        → has_bearer r.authorization ≡ b
        → (c : Option String) → r.cookie ≡ c
        → IsLive s now later x
    go true e c f =
        get-IsLive s (slice r.authorization (len bearer) (len r.authorization)) now later x
          (ground arith)
    go false e none f = absurd (ground arith)
    go false e (some value) f = get-IsLive s value now later x (ground arith)

-- A request that must have a session is served only with a session that is stored and has not
-- expired, and with that session's user, whatever its header and its cookie say.
pub require_auth-IsLive :
    (s : SessionStore) (r : Request) (now later : Time) (session : Option Session)
    (user : Option GitHubUser)
    → (require_auth s r now later).0 ≡ served session user
    → (x : Session) × (session ≡ some x) × (user ≡ x.github_user) × IsLive s now later x
unfolding require_auth
require_auth-IsLive s r now later session user h =
    go (Sessions.extract_session s r now later).0 refl
  where
    go :
        (result : Result Session)
        → (Sessions.extract_session s r now later).0 ≡ result
        → (x : Session) × (session ≡ some x) × (user ≡ x.github_user) × IsLive s now later x
    go (ok x) e = (x, ground arith, ground arith, extract_session-IsLive s r now later x e)
    go (err f) e = absurd (ground arith)
