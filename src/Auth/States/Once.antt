-- ===== src/Auth/States/Once.antt =====
-- internal/auth/github.go: an OAuth state is good for one exchange, and for one of its lifetime.
use qtest.Prelude.{
  ◌≡◌, ◌≢◌, refl, ap, ◌∙◌, String, Bool, true, false, Option, none, some, List, [], ◌∷◌, arith, All,
  Bool-cases, inl, inr, ◌⊎◌, str_eq, str_eq_iff, if◌then◌else◌,
}
use qtest.Prelude.Assoc.{lookup, erase, lookup-erase, lookup-insert, lookup-insert_self}
use qtest.Prelude.Int.{ltb_ℤ, ◌+ℤ◌}
use qtest.Jobs.Types.{Time}
use qtest.Workspace.Generate.{Answer, got, refused}
use qtest.Auth.Sessions.{string_eq}
use qtest.Auth.States.{
  Provider, Client, generate, validate, is_before, sweep, cleanup, auth_url, exchange, requested,
  body_for,
}

-- The calls of a provider that work on its states: a new authorization, an exchange, and a clean-up.
pub data Call : Type 0 where
  authorize : Answer String → Time → Call
  redeem : Client → String → String → Time → Call
  clean : Time → Call

unfoldable pub run_call : Call → Provider → Provider
run_call (authorize random now) p = (auth_url random now p).1
run_call (redeem client code state now) p = (exchange client code state now p).1
run_call (clean now) p = record p { states = cleanup now p.states }

unfoldable pub run_calls : List Call → Provider → Provider
unfolding run_call
run_calls [] p = p
run_calls (c ∷ cs) p = run_calls cs (run_call c p)

-- The random source does not give the state to this call.
abbrev pub SparesState : String → Call → Type 0
SparesState k (authorize (got state) now) = state ≢ k
SparesState k _ = Unit

abbrev Unknown : String → Provider → Type 0
Unknown k p = lookup k p.states.states ≡ none

exchange-states :
    (client : Client) (code state : String) (now : Time) (p : Provider)
    → (exchange client code state now p).1.states.states ≡ erase state p.states.states
unfolding exchange validate
exchange-states client code state now p =
    elim (Bool-cases (is_before now (lookup state p.states.states))) [
      | inl ok ↦ rw ok refl
      | inr bad ↦ rw bad refl
    ]

sweep-none :
    (k : String) (now : Time) (m : List (String × Time))
    → lookup k m ≡ none
    → lookup k (sweep now m) ≡ none
unfolding lookup sweep
sweep-none k now [] h = refl
sweep-none k now ((j, t) ∷ m) h = ground (arith, sweep-none k now m)

differ : (a b : String) → a ≢ b → str_eq a b ≡ false
differ a b n = elim (Bool-cases (str_eq a b)) [
  | inl same ↦ absurd (n ((str_eq_iff a b).0 same))
  | inr other ↦ other
]

none_either : (b : Bool) (o : Option Time) → o ≡ none → (if b then none else o) ≡ none
none_either true o h = refl
none_either false o h = h

run_call-Unknown :
    (k : String) (c : Call) (p : Provider)
    → SparesState k c
    → Unknown k p
    → Unknown k (run_call c p)
unfolding run_call
run_call-Unknown k (authorize (refused e) now) p s h = unfold auth_url generate in h
run_call-Unknown k (authorize (got state) now) p s h =
    unfold auth_url generate in
    (lookup-insert state k (now +ℤ p.states.ttl) p.states.states ∙ rw (differ state k s) h)
run_call-Unknown k (redeem client code state now) p s h =
    ap (lookup k) (exchange-states client code state now p)
    ∙ lookup-erase state k p.states.states
    ∙ none_either (str_eq state k) (lookup k p.states.states) h
run_call-Unknown k (clean now) p s h = unfold cleanup in sweep-none k now p.states.states h

run_calls-Unknown :
    (k : String) (cs : List Call) (p : Provider)
    → All (SparesState k) cs
    → Unknown k p
    → Unknown k (run_calls cs p)
unfolding run_calls
run_calls-Unknown k [] p s h = h
run_calls-Unknown k (c ∷ cs) p s h =
    run_calls-Unknown k cs (run_call c p) s.1 (run_call-Unknown k c p s.0 h)

exchange-Unknown :
    (client : Client) (code k : String) (now : Time) (p : Provider)
    → Unknown k p
    → (exchange client code k now p).0 ≡ refused "invalid or expired state parameter"
unfolding exchange validate
exchange-Unknown client code k now p h = rw h refl

exchange_erases :
    (client : Client) (code k : String) (now : Time) (p : Provider)
    → Unknown k (exchange client code k now p).1
exchange_erases client code k now p =
    ap (lookup k) (exchange-states client code k now p)
    ∙ lookup-erase k k p.states.states
    ∙ rw ((str_eq_iff k k).1 refl) refl

exchange_authorized :
    (client : Client) (code k : String) (now later : Time) (p : Provider)
    → (exchange client code k later (auth_url (got k) now p).1).0 ≡ (
        if ltb_ℤ later (now +ℤ p.states.ttl)
        then requested client (body_for p code) (client.new_request (body_for p code))
        else refused "invalid or expired state parameter")
unfolding exchange validate auth_url generate
exchange_authorized client code k now later p =
    elim (Bool-cases (ltb_ℤ later (now +ℤ p.states.ttl))) [
      | inl live ↦ rw (lookup-insert_self, live) refl
      | inr over ↦ rw (lookup-insert_self, over) refl
    ]

-- The call does not draw or redeem the state, and is no clean-up of a time after `later`.
abbrev pub LeavesState : String → Time → Call → Type 0
LeavesState k later (authorize (got state) now) = state ≢ k
LeavesState k later (redeem client code state now) = state ≢ k
LeavesState k later (clean now) = ltb_ℤ later now ≡ false
LeavesState k later _ = Unit

sweep-live :
    (k : String) (now expiry : Time) (m : List (String × Time))
    → ltb_ℤ expiry now ≡ false
    → lookup k m ≡ some expiry
    → lookup k (sweep now m) ≡ some expiry
unfolding lookup sweep
sweep-live k now expiry [] l h = h
sweep-live k now expiry ((j, t) ∷ m) l h = ground (arith, sweep-live k now expiry m l)

some_unless :
    (b : Bool) (o : Option Time) (t : Time)
    → b ≡ false
    → o ≡ some t
    → (if b then none else o) ≡ some t
some_unless b o t e h = rw e h

run_call-live :
    (k : String) (later expiry : Time) (c : Call) (p : Provider)
    → LeavesState k later c
    → ltb_ℤ later expiry ≡ true
    → lookup k p.states.states ≡ some expiry
    → lookup k (run_call c p).states.states ≡ some expiry
unfolding run_call
run_call-live k later expiry (authorize (refused e) now) p s l h = unfold auth_url generate in h
run_call-live k later expiry (authorize (got state) now) p s l h =
    unfold auth_url generate in
    (lookup-insert state k (now +ℤ p.states.ttl) p.states.states ∙ rw (differ state k s) h)
run_call-live k later expiry (redeem client code state now) p s l h =
    ap (lookup k) (exchange-states client code state now p)
    ∙ lookup-erase state k p.states.states
    ∙ some_unless (str_eq state k) (lookup k p.states.states) expiry (differ state k s) h
run_call-live k later expiry (clean now) p s l h =
    unfold cleanup in sweep-live k now expiry p.states.states (ground arith) h

run_calls-live :
    (k : String) (later expiry : Time) (cs : List Call) (p : Provider)
    → All (LeavesState k later) cs
    → ltb_ℤ later expiry ≡ true
    → lookup k p.states.states ≡ some expiry
    → lookup k (run_calls cs p).states.states ≡ some expiry
unfolding run_calls
run_calls-live k later expiry [] p s l h = h
run_calls-live k later expiry (c ∷ cs) p s l h =
    run_calls-live k later expiry cs (run_call c p) s.1 l (run_call-live k later expiry c p s.0 l h)

run_call-client :
    (c : Call) (p : Provider) (code : String) → body_for (run_call c p) code ≡ body_for p code
unfolding run_call exchange validate auth_url generate
run_call-client (authorize (refused e) now) p code = refl
run_call-client (authorize (got state) now) p code = refl
run_call-client (redeem client code' state now) p code =
    elim (Bool-cases (is_before now (lookup state p.states.states))) [
      | inl ok ↦ rw (run_call, ok) refl
      | inr bad ↦ rw (run_call, bad) refl
    ]
run_call-client (clean now) p code = refl

run_calls-client :
    (cs : List Call) (p : Provider) (code : String)
    → body_for (run_calls cs p) code ≡ body_for p code
unfolding run_calls
run_calls-client [] p code = refl
run_calls-client (c ∷ cs) p code =
    run_calls-client cs (run_call c p) code ∙ run_call-client c p code

exchange-live :
    (client : Client) (code k : String) (now expiry : Time) (p : Provider)
    → ltb_ℤ now expiry ≡ true
    → lookup k p.states.states ≡ some expiry
    → (exchange client code k now p).0
      ≡ requested client (body_for p code) (client.new_request (body_for p code))
unfolding exchange validate
exchange-live client code k now expiry p l h = rw (h, l) refl

exchange_later :
    (client : Client) (code k : String) (now later : Time) (p : Provider) (cs : List Call)
    → All (LeavesState k later) cs
    → ltb_ℤ later (now +ℤ p.states.ttl) ≡ true
    → (exchange client code k later (run_calls cs (auth_url (got k) now p).1)).0
      ≡ requested client (body_for p code) (client.new_request (body_for p code))
unfolding auth_url run_call
exchange_later client code k now later p cs left live =
    let p' = (auth_url (got k) now p).1 in
    let there : lookup k p'.states.states ≡ some (now +ℤ p.states.ttl) =
      unfold generate in lookup-insert_self k (now +ℤ p.states.ttl) p.states.states in
    let body : body_for (run_calls cs p') code ≡ body_for p code =
      run_calls-client cs p' code ∙ run_call-client (authorize (got k) now) p code in
    exchange-live client code k later (now +ℤ p.states.ttl) (run_calls cs p') live
      (run_calls-live k later (now +ℤ p.states.ttl) cs p' left live there)
    ∙ rw body refl

-- Directly after an authorization an exchange with its state sends its request if the lifetime of the
-- state is not over, and is refused if it is. Within the lifetime it also sends it after any calls
-- that do not draw or redeem the state: other authorizations and exchanges, and clean-ups no later
-- than the exchange. After that exchange, whatever it led to and whatever calls follow that do not
-- draw the same state, an exchange with the state is refused.
pub exchange_once :
    (client : Client) (code k : String) (now later : Time) (p : Provider) (before after : List Call)
    → All (LeavesState k later) before
    → All (SparesState k) after
    → (client' : Client) (code' : String) (last : Time)
    → let authorized = (auth_url (got k) now p).1 in
      let used = exchange client code k later (run_calls before authorized) in
      ((exchange client code k later authorized).0 ≡ (
        if ltb_ℤ later (now +ℤ p.states.ttl)
        then requested client (body_for p code) (client.new_request (body_for p code))
        else refused "invalid or expired state parameter"))
      × ((ltb_ℤ later (now +ℤ p.states.ttl) ≡ false)
          ⊎ (used.0 ≡ requested client (body_for p code) (client.new_request (body_for p code))))
      × ((exchange client' code' k last (run_calls after used.1)).0
          ≡ refused "invalid or expired state parameter")
exchange_once client code k now later p before after left spared client' code' last =
    let reached = run_calls before (auth_url (got k) now p).1 in
    (
      exchange_authorized client code k now later p,
      elim (Bool-cases (ltb_ℤ later (now +ℤ p.states.ttl))) [
        | inl live ↦ inr (exchange_later client code k now later p before left live)
        | inr over ↦ inl over
      ],
      exchange-Unknown client' code' k last
          (run_calls after (exchange client code k later reached).1)
          (run_calls-Unknown k after (exchange client code k later reached).1 spared
            (exchange_erases client code k later reached)),
    )
