-- ===== src/Auth/States.antt =====
-- internal/auth/github.go: the store of OAuth states, and the exchange of a code for a token, which is
-- behind it. The random bytes, `time.Now` and the HTTP client are arguments, with their answers.
pub mod Once
mod Tests
use Prim.Native.String.{◌++◌ as append_text}
use qtest.Prelude.{
  ℕ, String, Bool, true, false, not, Option, none, some, List, [], ◌∷◌, ◌==◌, if◌then◌else◌, str_eq,
}
use qtest.Prelude.Assoc.{lookup, insert, erase}
use qtest.Prelude.Int.{ℤ, ◌+ℤ◌, ltb_ℤ}
use qtest.Jobs.Types.{Time, Duration}
use qtest.Workspace.Generate.{Answer, got, refused}
use qtest.Auth.Sessions.{string_eq}

pub record StateStore : Type 0 where
  pub states : List (String × Time)
  pub ttl : Duration

unfoldable pub new_state_store : Duration → StateStore
new_state_store ttl = record { states = []; ttl = ttl }

-- `Generate`, on what the random source gives.
unfoldable pub generate : Answer String → Time → StateStore → Answer String × StateStore
unfolding insert ◌+ℤ◌
generate (refused e) now s = (refused e, s)
generate (got state) now s = (got state, record s { states = insert state (now +ℤ s.ttl) s.states })

abbrev pub is_before : Time → Option Time → Bool
is_before now none = false
is_before now (some expiry) = ltb_ℤ now expiry

-- `Validate`: a state that is known is removed, whether it has expired or not.
unfoldable pub validate : String → Time → StateStore → Bool × StateStore
unfolding lookup erase
validate state now s =
    (is_before now (lookup state s.states), record s { states = erase state s.states })

-- The loop of `cleanup`, at one tick.
unfoldable pub sweep : Time → List (String × Time) → List (String × Time)
sweep now [] = []
sweep now ((state, expiry) ∷ rest) =
    let kept = sweep now rest in if ltb_ℤ expiry now then kept else (state, expiry) ∷ kept

unfoldable pub cleanup : Time → StateStore → StateStore
unfolding sweep
cleanup now s = record s { states = sweep now s.states }

-- `GitHubTokenResponse`
pub record TokenResponse : Type 0 where
  pub access_token : String
  pub token_type : String
  pub scope : String
  pub error : String
  pub error_description : String

-- `GitHubProvider`, without its client.
pub record Provider : Type 0 where
  pub client_id : String
  pub client_secret : String
  pub redirect_url : String
  pub scopes : List String
  pub states : StateStore

-- `NewGitHubProvider`
unfoldable pub new_provider : String → String → String → List String → Provider
unfolding new_state_store
new_provider id secret redirect [] = record {
  client_id = id;
  client_secret = secret;
  redirect_url = redirect;
  scopes = "read:user" ∷ "user:email" ∷ "repo" ∷ [];
  states = new_state_store (ℤ.pos 600000000000);
}
new_provider id secret redirect (scope ∷ scopes) = record {
  client_id = id;
  client_secret = secret;
  redirect_url = redirect;
  scopes = scope ∷ scopes;
  states = new_state_store (ℤ.pos 600000000000);
}

unfoldable pub joined : String → List String → String
joined sep [] = ""
joined sep (x ∷ []) = x
joined sep (x ∷ y ∷ xs) = append_text x (append_text sep (joined sep (y ∷ xs)))

abbrev pub url_for : Provider → String → String
url_for p state = append_text "https://github.com/login/oauth/authorize?client_id=" (
    append_text p.client_id (
      append_text "&redirect_uri=" (
        append_text p.redirect_url (
          append_text "&scope="
            (append_text (joined "%20" p.scopes) (append_text "&state=" state))))))

abbrev pub with_url : Provider → Answer String × StateStore → Answer (String × String) × Provider
with_url p (refused e, states) =
    (refused (append_text "failed to generate state: " e), record p { states = states })
with_url p (got state, states) = (got (url_for p state, state), record p { states = states })

-- `AuthURL`
unfoldable pub auth_url : Answer String → Time → Provider → Answer (String × String) × Provider
unfolding generate joined
auth_url random now p = with_url p (generate random now p.states)

-- What the client does with a request body: it makes the request, and answers with a status and what
-- the body decodes to.
pub record Client : Type 0 where
  pub new_request : String → Answer (Unit {0})
  pub send : String → Answer (ℕ × Answer TokenResponse)
  pub number_text : ℕ → String

abbrev pub body_for : Provider → String → String
body_for p code = append_text "client_id=" (
    append_text p.client_id (
      append_text "&client_secret=" (
        append_text p.client_secret
          (append_text "&code=" (append_text code (append_text "&redirect_uri=" p.redirect_url))))))

unfoldable pub token_of : Answer TokenResponse → Answer TokenResponse
token_of (refused e) = refused (append_text "failed to decode response: " e)
token_of (got r) =
    if str_eq r.error ""
    then got r
    else refused
        (append_text "OAuth error: " (append_text r.error (append_text " - " r.error_description)))

unfoldable pub received : Client → Answer (ℕ × Answer TokenResponse) → Answer TokenResponse
unfolding token_of
received client (refused e) = refused (append_text "failed to exchange code: " e)
received client (got (status, body)) =
    if status == 200
    then token_of body
    else refused (append_text "token exchange failed with status: " (client.number_text status))

unfoldable pub requested : Client → String → Answer (Unit {0}) → Answer TokenResponse
unfolding received
requested client body (refused e) = refused (append_text "failed to create request: " e)
requested client body (got _) = received client (client.send body)

abbrev pub exchange_with :
    Client → Provider → String → Bool × StateStore → Answer TokenResponse × Provider
exchange_with client p code (false, states) =
    (refused "invalid or expired state parameter", record p { states = states })
exchange_with client p code (true, states) = (
  requested client (body_for p code) (client.new_request (body_for p code)),
  record p { states = states },
)

-- `Exchange`
unfoldable pub exchange :
    Client → String → String → Time → Provider → Answer TokenResponse × Provider
unfolding validate requested
exchange client code state now p = exchange_with client p code (validate state now p.states)
