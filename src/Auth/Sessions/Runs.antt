-- ===== src/Auth/Sessions/Runs.antt =====
-- Any sequence of the calls that internal/auth/session.go takes, the middleware's included.
use qtest.Prelude.{String, ◌≡◌, inl, inr, Option, none, some, List, [], ◌∷◌, Bool-cases, str_eq}
use qtest.Prelude.Assoc.{lookup}
use qtest.Jobs.Types.{Uuid, Time}
use qtest.Auth.Sessions
use qtest.Auth.Sessions.{string_eq, SessionStore, GitHubUser, Request, has_bearer}
use qtest.Auth.Sessions.Consistent.{
  IsConsistent, create-IsConsistent, delete-IsConsistent, get-IsConsistent,
  get_by_user_id-IsConsistent, extend-IsConsistent,
}
use qtest.Auth.Sessions.Expiry.{cleanup-IsConsistent}

pub data Op : Type 0 where
  create : Uuid → GitHubUser → String → String → Option String → Time → Op
  delete : String → Op
  get : String → Time → Time → Op
  get_by_user_id : Uuid → Time → Time → Op
  extend : String → Time → Time → Op
  cleanup : Time → Op
  require_auth : Request → Time → Time → Op
  optional_auth : Request → Time → Time → Op

unfoldable pub run_op : Op → SessionStore → SessionStore
run_op (create u g access refresh generated now) s =
    (Sessions.create s u g access refresh generated now).1
run_op (delete id) s = Sessions.delete s id
run_op (get id now later) s = (Sessions.get s id now later).1
run_op (get_by_user_id u now later) s = (Sessions.get_by_user_id s u now later).1
run_op (extend id now later) s = (Sessions.extend s id now later).1
run_op (cleanup now) s = Sessions.cleanup now s
run_op (require_auth r now later) s = (Sessions.require_auth s r now later).1
run_op (optional_auth r now later) s = (Sessions.optional_auth s r now later).1

unfoldable pub run_ops : List Op → SessionStore → SessionStore
run_ops [] s = s
run_ops (op ∷ ops) s = run_ops ops (run_op op s)

-- The id that is drawn for a new session, if one is, is not in use.
abbrev pub IsFresh : Op → SessionStore → Type 0
IsFresh (create u g access refresh (some id) now) s = lookup id s.sessions ≡ none
IsFresh _ s = Unit

abbrev pub AllFresh : List Op → SessionStore → Type 0
AllFresh [] s = Unit
AllFresh (op ∷ ops) s = IsFresh op s × AllFresh ops (run_op op s)

from_cookie-IsConsistent :
    (s : SessionStore) (now later : Time) (cookie : Option String)
    → IsConsistent s
    → IsConsistent (Sessions.from_cookie s now later cookie).1
unfolding Sessions.from_cookie
from_cookie-IsConsistent s now later none c = c
from_cookie-IsConsistent s now later (some value) c = elim (Bool-cases (str_eq value "")) [
  | inl empty ↦ rw empty c
  | inr named ↦ rw named (get-IsConsistent s value now later c)
]

extract_session-IsConsistent :
    (s : SessionStore) (r : Request) (now later : Time)
    → IsConsistent s
    → IsConsistent (Sessions.extract_session s r now later).1
unfolding Sessions.extract_session
extract_session-IsConsistent s r now later c = elim (Bool-cases (has_bearer r.authorization)) [
  | inl header ↦ rw header (get-IsConsistent s _ now later c)
  | inr cookie ↦ rw cookie (from_cookie-IsConsistent s now later r.cookie c)
]

run_op-IsConsistent :
    (op : Op) (s : SessionStore) → IsFresh op s → IsConsistent s → IsConsistent (run_op op s)
unfolding run_op Sessions.require_auth Sessions.optional_auth
run_op-IsConsistent (create u g access refresh none now) s f c =
    create-IsConsistent s u g access refresh none now c (λ id e. cc)
run_op-IsConsistent (create u g access refresh (some id) now) s f c =
    create-IsConsistent s u g access refresh (some id) now c
      (λ j e. let same : id ≡ j = cc in rw (← same) f)
run_op-IsConsistent (delete id) s f c = delete-IsConsistent s id c
run_op-IsConsistent (get id now later) s f c = get-IsConsistent s id now later c
run_op-IsConsistent (get_by_user_id u now later) s f c = get_by_user_id-IsConsistent s u now later c
run_op-IsConsistent (extend id now later) s f c = extend-IsConsistent s id now later c
run_op-IsConsistent (cleanup now) s f c = cleanup-IsConsistent now s c
run_op-IsConsistent (require_auth r now later) s f c = extract_session-IsConsistent s r now later c
run_op-IsConsistent (optional_auth r now later) s f c = extract_session-IsConsistent s r now later c

-- From a consistent store, any sequence of calls, in which every new session gets an id that is not
-- in use, leads to a consistent store: a user has one session at most, the index finds it, and no
-- entry of the index is left without its session.
pub run_ops-IsConsistent :
    (ops : List Op) (s : SessionStore)
    → AllFresh ops s
    → IsConsistent s
    → IsConsistent (run_ops ops s)
unfolding run_ops
run_ops-IsConsistent [] s f c = c
run_ops-IsConsistent (op ∷ ops) s f c =
    run_ops-IsConsistent ops (run_op op s) f.1 (run_op-IsConsistent op s f.0 c)
