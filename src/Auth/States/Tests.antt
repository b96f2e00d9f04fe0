-- ===== src/Auth/States/Tests.antt =====
-- A state that is used twice.
use mathlib.Core.Bool.{true≢false}
use qtest.Prelude.{refl, ◌⊎◌, false, sym, str_eq_iff, ◌≡◌, List, [], ◌∷◌, All, if◌then◌else◌}
use qtest.Prelude.Int.{ℤ, ltb_ℤ, ◌+ℤ◌}
use qtest.Workspace.Generate.{got, refused}
use qtest.Auth.States.{
  Provider, Client, TokenResponse, auth_url, exchange, new_provider, requested, body_for,
}
use qtest.Auth.States.Once.{
  Call, authorize, clean, LeavesState, SparesState, run_calls, exchange_once,
}

abbrev token : TokenResponse
token = record {
  access_token = "t";
  token_type = "bearer";
  scope = "repo";
  error = "";
  error_description = "";
}

abbrev client : Client
client = record {
  new_request = λ body. got tt;
  send = λ body. got (200, got token);
  number_text = λ n. "?";
}

abbrev provider : Provider
provider = new_provider "id" "secret" "/callback" []

abbrev calls : List Call
calls = authorize (got "other") (ℤ.pos 20) ∷ clean (ℤ.pos 30) ∷ []

calls-SparesState : All (SparesState "state") calls
calls-SparesState = ((λ e. true≢false (sym ((str_eq_iff "other" "state").1 e))), (tt, tt))

earlier-LeavesState : All (LeavesState "state" (ℤ.pos 40)) calls
earlier-LeavesState = (calls-SparesState.0, (refl, tt))

exchange_once_example :
    let authorized = (auth_url (got "state") (ℤ.pos 0) provider).1 in
    let used = exchange client "code" "state" (ℤ.pos 40) (run_calls calls authorized) in
    let request =
      requested client (body_for provider "code") (client.new_request (body_for provider "code")) in
    ((exchange client "code" "state" (ℤ.pos 40) authorized).0 ≡ (
      if ltb_ℤ (ℤ.pos 40) (ℤ.pos 0 +ℤ provider.states.ttl)
      then request
      else refused "invalid or expired state parameter"))
    × ((ltb_ℤ (ℤ.pos 40) (ℤ.pos 0 +ℤ provider.states.ttl) ≡ false) ⊎ (used.0 ≡ request))
    × ((exchange client "again" "state" (ℤ.pos 50) (run_calls calls used.1)).0
        ≡ refused "invalid or expired state parameter")
exchange_once_example =
    exchange_once client "code" "state" (ℤ.pos 0) (ℤ.pos 40) provider calls calls
      earlier-LeavesState calls-SparesState client "again" (ℤ.pos 50)
