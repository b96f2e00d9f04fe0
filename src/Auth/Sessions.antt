-- ===== src/Auth/Sessions.antt =====
-- internal/auth/session.go: the session store and the middleware that reads it. A value of
-- `time.Now` is an argument, and so is the random session id, or its failure.
pub mod Consistent
pub mod Expiry
pub mod Runs
mod Tests
use Prim.Native.String.{len, slice}
use text.Mathlib.Text.{starts_with}
use qtest.Prelude.{
  ℕ, String, Bool, true, false, ◌&&◌, Option, none, some, List, [], ◌∷◌, ltb, if◌then◌else◌, length,
  str_eq, str_eq_iff, ◌==◌, ==_iff,
}
use qtest.Prelude.Assoc.{Eq, lookup, insert, erase}
use qtest.Prelude.Int.{ℤ, ◌+ℤ◌, ltb_ℤ, eqb_ℤ}
use qtest.Jobs.Types.{Uuid, Time, Duration}

instance abbrev pub uuid_eq : Eq Uuid
uuid_eq = record { beq = ◌==◌; beq_iff = ==_iff }

instance abbrev pub string_eq : Eq String
string_eq = record { beq = str_eq; beq_iff = str_eq_iff }

-- `GitHubUser` of internal/auth/github.go.
pub record GitHubUser : Type 0 where
  pub id : ℤ
  pub login : String
  pub name : String
  pub email : String
  pub avatar_url : String

pub record Session : Type 0 where
  pub id : String
  pub user_id : Uuid
  pub github_user : Option GitHubUser
  pub access_token : String
  pub refresh_token : String
  pub created_at : Time
  pub expires_at : Time
  pub last_access : Time

pub data Error : Type 0 where
  session_not_found session_expired invalid_token random_failed : Error

pub data Result {ℓ} (A : Type ℓ) : Type ℓ where
  ok : A → Result A
  err : Error → Result A

-- `now.After(s.ExpiresAt)`
abbrev pub is_expired : Time → Session → Bool
is_expired now s = ltb_ℤ s.expires_at now

pub record SessionStore : Type 0 where
  pub sessions : List (String × Session)
  pub by_user_id : List (Uuid × String)
  pub ttl : Duration
  pub max_per_user : ℤ

-- 24 hours in nanoseconds.
abbrev pub day : Duration
day = ℤ.pos 86400000000000

unfoldable pub new_session_store : Duration → ℤ → SessionStore
new_session_store ttl max_per_user = record {
  sessions = [];
  by_user_id = [];
  ttl = if eqb_ℤ ttl (ℤ.pos 0) then day else ttl;
  max_per_user = if eqb_ℤ max_per_user (ℤ.pos 0) then ℤ.pos 5 else max_per_user;
}

-- The removal of the session that the user has.
abbrev pub without_previous : Option String → List (String × Session) → List (String × Session)
without_previous none sessions = sessions
without_previous (some id) sessions = erase id sessions

abbrev pub new_session : String → Uuid → GitHubUser → String → String → Time → Duration → Session
new_session id user_id github_user access_token refresh_token now ttl = record {
  id = id;
  user_id = user_id;
  github_user = some github_user;
  access_token = access_token;
  refresh_token = refresh_token;
  created_at = now;
  expires_at = now +ℤ ttl;
  last_access = now;
}

-- `Create`; `generated` is what `generateSessionID` returns.
unfoldable pub create :
    SessionStore
    → Uuid
    → GitHubUser
    → String
    → String
    → Option String
    → Time
    → Result Session × SessionStore
create s user_id github_user access_token refresh_token none now = (err random_failed, s)
create s user_id github_user access_token refresh_token (some id) now =
    let session = new_session id user_id github_user access_token refresh_token now s.ttl in
    (
      ok session,
      record s {
        sessions = insert id session (without_previous (lookup user_id s.by_user_id) s.sessions);
        by_user_id = insert user_id id s.by_user_id;
      },
    )

drop : SessionStore → String → Option Session → SessionStore
drop s id none = s
drop s id (some session) = record s {
  by_user_id = erase session.user_id s.by_user_id;
  sessions = erase id s.sessions;
}

unfoldable pub delete : SessionStore → String → SessionStore
unfolding drop
delete s id = drop s id (lookup id s.sessions)

found : SessionStore → String → Time → Time → Option Session → Result Session × SessionStore
unfolding delete
found s id now later none = (err session_not_found, s)
found s id now later (some session) =
    if is_expired now session
    then (err session_expired, delete s id)
    else let touched : Session = record session { last_access = later } in
      (ok touched, record s { sessions = insert id touched s.sessions })

-- `Get` reads the clock twice.
unfoldable pub get : SessionStore → String → Time → Time → Result Session × SessionStore
unfolding found
get s id now later = found s id now later (lookup id s.sessions)

get_named : SessionStore → Time → Time → Option String → Result Session × SessionStore
unfolding get
get_named s now later none = (err session_not_found, s)
get_named s now later (some id) = get s id now later

unfoldable pub get_by_user_id : SessionStore → Uuid → Time → Time → Result Session × SessionStore
unfolding get_named
get_by_user_id s user_id now later = get_named s now later (lookup user_id s.by_user_id)

extended : SessionStore → String → Time → Time → Option Session → Result (Unit {0}) × SessionStore
extended s id now later none = (err session_not_found, s)
extended s id now later (some session) = (
  ok tt,
  record s {
    sessions =
        insert id (record session { expires_at = now +ℤ s.ttl; last_access = later }) s.sessions;
  },
)

unfoldable pub extend : SessionStore → String → Time → Time → Result (Unit {0}) × SessionStore
unfolding extended
extend s id now later = extended s id now later (lookup id s.sessions)

unfoldable pub count : SessionStore → ℕ
count s = length s.sessions

-- The loop of `cleanup` over the entries that the map has when it begins.
unfoldable pub sweep : Time → List (String × Session) → SessionStore → SessionStore
sweep now [] s = s
sweep now ((id, session) ∷ rest) s = sweep now rest (
    if is_expired now session
    then record s {
      by_user_id = erase session.user_id s.by_user_id;
      sessions = erase id s.sessions;
    }
    else s)

unfoldable pub cleanup : Time → SessionStore → SessionStore
unfolding sweep
cleanup now s = sweep now s.sessions s

-- The parts of a request that `extractSession` reads: the header `Authorization`, empty if there is
-- none, and the cookie `qtest_session`.
pub record Request : Type 0 where
  pub authorization : String
  pub cookie : Option String

abbrev pub bearer : String
bearer = "Bearer "

abbrev pub has_bearer : String → Bool
has_bearer header = ltb (len bearer) (len header) && starts_with header bearer

unfoldable pub from_cookie :
    SessionStore → Time → Time → Option String → Result Session × SessionStore
from_cookie s now later none = (err invalid_token, s)
from_cookie s now later (some value) =
    if str_eq value "" then (err invalid_token, s) else get s value now later

unfoldable pub extract_session :
    SessionStore → Request → Time → Time → Result Session × SessionStore
unfolding from_cookie
extract_session s r now later =
    if has_bearer r.authorization
    then get s (slice r.authorization (len bearer) (len r.authorization)) now later
    else from_cookie s now later r.cookie

-- What the middleware does with a request: it answers 401, or hands the request on with a session
-- and a user in its context, or with neither.
pub data Outcome : Type 0 where
  unauthorized : Outcome
  served : Option Session → Option GitHubUser → Outcome

required : Result Session → Outcome
required (ok session) = served (some session) session.github_user
required (err e) = unauthorized

unfoldable pub require_auth : SessionStore → Request → Time → Time → Outcome × SessionStore
unfolding required
require_auth s r now later =
    let (result, s') = extract_session s r now later in (required result, s')

optional : Result Session → Outcome
optional (ok session) = served (some session) session.github_user
optional (err e) = served none none

unfoldable pub optional_auth : SessionStore → Request → Time → Time → Outcome × SessionStore
unfolding optional
optional_auth s r now later =
    let (result, s') = extract_session s r now later in (optional result, s')
