-- ===== src/Auth/Sessions/Tests.antt =====
-- Runs of the session store of internal/auth/session.go.
use Prim.Native.String.{slice}
use qtest.Prelude.{◌⊎◌, ap, ◌≡◌, refl, str_eq, true, false, none, some, List, [], ◌∷◌}
use qtest.Prelude.Assoc.{lookup, insert, erase}
use qtest.Prelude.Int.{ℤ, ◌+ℤ◌, ltb_ℤ}
use qtest.Auth.Sessions
use qtest.Auth.Sessions.{
  uuid_eq, string_eq, GitHubUser, Session, SessionStore, Result, ok, err, session_not_found,
  session_expired, Request, served, require_auth, is_expired, new_session, new_session_store,
}
use qtest.Auth.Sessions.Consistent.{IsConsistent, new_session_store-IsConsistent}
use qtest.Auth.Sessions.Expiry.{create-get, IsLive, require_auth-IsLive}
use qtest.Auth.Sessions.Runs.{Op, run_ops, run_ops-IsConsistent}

slice_bounds : slice "Bearer abc" 7 10 ≡ "abc"
slice_bounds = refl

abbrev octocat : GitHubUser
octocat = record { id = ℤ.pos 1; login = "octocat"; name = ""; email = ""; avatar_url = "" }

abbrev empty_store : SessionStore
empty_store = record { sessions = []; by_user_id = []; ttl = ℤ.pos 100; max_per_user = ℤ.pos 5 }

abbrev first_session : Session
first_session = record {
  id = "abc";
  user_id = 1;
  github_user = some octocat;
  access_token = "t";
  refresh_token = "";
  created_at = ℤ.pos 0;
  expires_at = ℤ.pos 100;
  last_access = ℤ.pos 0;
}

abbrev one_store : SessionStore
one_store = record empty_store {
  sessions = ("abc", first_session) ∷ [];
  by_user_id = (1, "abc") ∷ [];
}

empty_store-IsConsistent : IsConsistent empty_store
unfolding new_session_store
empty_store-IsConsistent = new_session_store-IsConsistent (ℤ.pos 100) (ℤ.pos 0)

-- Two sessions of one user, a clean-up, and a request without a token.
abbrev ops : List Op
ops =
    Op.create 1 octocat "t" "" (some "abc") (ℤ.pos 0)
    ∷ Op.create 1 octocat "u" "" (some "def") (ℤ.pos 5)
    ∷ Op.cleanup (ℤ.pos 300)
    ∷ Op.require_auth (record { authorization = ""; cookie = none }) (ℤ.pos 301) (ℤ.pos 302)
    ∷ []

run_ops-IsConsistent_example : IsConsistent (run_ops ops empty_store)
unfolding Sessions.Runs.run_op Sessions.create lookup insert erase
run_ops-IsConsistent_example =
    run_ops-IsConsistent ops empty_store (refl, (refl, (tt, (tt, tt)))) empty_store-IsConsistent

one_store-IsConsistent : IsConsistent one_store
unfolding Sessions.create Sessions.Runs.run_ops Sessions.Runs.run_op lookup insert erase ◌+ℤ◌
one_store-IsConsistent =
    run_ops-IsConsistent (Op.create 1 octocat "t" "" (some "abc") (ℤ.pos 0) ∷ []) empty_store
      (refl, tt) empty_store-IsConsistent

create-get_example :
    let s' = (Sessions.create one_store 1 octocat "u" "" (some "def") (ℤ.pos 5)).1 in
    ((Sessions.get s' "abc" (ℤ.pos 6) (ℤ.pos 7)).0 ≡ err session_not_found)
    × (((ltb_ℤ (ℤ.pos 105) (ℤ.pos 6) ≡ false)
          × ((Sessions.get s' "def" (ℤ.pos 6) (ℤ.pos 7)).0
              ≡ ok (record {
                id = "def";
                user_id = 1;
                github_user = some octocat;
                access_token = "u";
                refresh_token = "";
                created_at = ℤ.pos 5;
                expires_at = ℤ.pos 105;
                last_access = ℤ.pos 7;
              })))
        ⊎ ((ltb_ℤ (ℤ.pos 105) (ℤ.pos 6) ≡ true)
            × ((Sessions.get s' "def" (ℤ.pos 6) (ℤ.pos 7)).0 ≡ err session_expired)))
unfolding lookup ◌+ℤ◌
create-get_example =
    create-get one_store 1 octocat "u" "" "def" "abc" (ℤ.pos 5) (ℤ.pos 6) (ℤ.pos 7) refl
      (λ e. let f : false ≡ true = ap (λ s. str_eq s "abc") e in cc)

require_auth-IsLive_example :
    (x : Session) × (some (record first_session { last_access = ℤ.pos 51 }) ≡ some x)
    × (some octocat ≡ x.github_user)
    × IsLive one_store (ℤ.pos 50) (ℤ.pos 51) x
unfolding require_auth Sessions.get lookup Sessions.extract_session
require_auth-IsLive_example =
    require_auth-IsLive one_store (record { authorization = "Bearer abc"; cookie = none })
      (ℤ.pos 50) (ℤ.pos 51) (some (record first_session { last_access = ℤ.pos 51 })) (some octocat)
      refl
