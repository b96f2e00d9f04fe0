-- ===== src/Auth/Sessions/Consistent.antt =====
-- The two maps of the session store agree (internal/auth/session.go): a user has one session at
-- most, and the index finds it.
use qtest.Prelude.{
  String, ◌≡◌, ◌≢◌, refl, inl, inr, Option, none, some, List, arith, Bool-cases, str_eq, str_eq_iff,
  ◌==◌, ==_iff,
}
use qtest.Prelude.Assoc.{
  lookup, insert, erase, lookup-erase, lookup-insert, UniqueKeys, erase-UniqueKeys,
  insert-UniqueKeys,
}
use qtest.Jobs.Types.{Uuid, Time, Duration}
use qtest.Auth.Sessions
use qtest.Auth.Sessions.{
  uuid_eq, string_eq, Session, SessionStore, GitHubUser, is_expired, without_previous, new_session,
}

-- Each entry of either map has its entry in the other.
pub record IsConsistent (s : SessionStore) : Type 0 where
  pub indexed :
      (u : Uuid) (id : String)
      → lookup u s.by_user_id ≡ some id
      → (x : Session) × (lookup id s.sessions ≡ some x) × (x.user_id ≡ u)
  pub keyed : UniqueKeys s.sessions
  pub owned :
      (id : String) (x : Session)
      → lookup id s.sessions ≡ some x
      → lookup x.user_id s.by_user_id ≡ some id

abbrev pub drop_entry : SessionStore → String → Uuid → SessionStore
drop_entry s id u = record s { by_user_id = erase u s.by_user_id; sessions = erase id s.sessions }

module _ (s : SessionStore) (c : IsConsistent s) (id : String) (x : Session)
    (there : lookup id s.sessions ≡ some x) where
  -- To drop a session with its user's entry keeps the maps consistent.
  pub drop_entry-IsConsistent : IsConsistent (drop_entry s id x.user_id)
  drop_entry-IsConsistent = record {
    indexed = λ u i e.
        let old : lookup u s.by_user_id ≡ some i =
          ground (arith, lookup-erase x.user_id u s.by_user_id) in
        let (y, stored, same) = c.indexed u i old in
        (
          y,
          ground (
            arith,
            lookup-erase x.user_id u s.by_user_id,
            lookup-erase id i s.sessions,
            str_eq_iff id i,
            ==_iff x.user_id u,
          ),
          same,
        );
    keyed = erase-UniqueKeys id s.sessions c.keyed;
    owned = λ i y e.
        let old : lookup i s.sessions ≡ some y = ground (arith, lookup-erase id i s.sessions) in
        ground (
          arith,
          c.owned i y old,
          c.owned id x there,
          lookup-erase id i s.sessions,
          lookup-erase x.user_id y.user_id s.by_user_id,
          str_eq_iff id i,
          ==_iff x.user_id y.user_id,
        );
  }

-- A session that is put in the place of one of the same user keeps the maps consistent.
replace-IsConsistent :
    (s : SessionStore) (id : String) (x y : Session)
    → IsConsistent s
    → lookup id s.sessions ≡ some x
    → y.user_id ≡ x.user_id
    → IsConsistent (record s { sessions = insert id y s.sessions })
replace-IsConsistent s id x y c there same = record {
  indexed = λ u i e.
      let (z, stored, of_user) = c.indexed u i e in
      elim (Bool-cases (str_eq id i)) [
        | inl here ↦
            (y, ground (arith, lookup-insert id i y s.sessions), ground (arith, str_eq_iff id i))
        | inr other ↦ (z, ground (arith, lookup-insert id i y s.sessions), of_user)
      ];
  keyed = insert-UniqueKeys id y s.sessions c.keyed;
  owned = λ i z e.
      ground
        (arith, lookup-insert id i y s.sessions, str_eq_iff id i, c.owned id x there, c.owned i z);
}

pub new_session_store-IsConsistent :
    (ttl m : Duration) → IsConsistent (Sessions.new_session_store ttl m)
unfolding Sessions.new_session_store lookup
new_session_store-IsConsistent ttl m = record {
  indexed = λ u i e. cc;
  keyed = tt;
  owned = λ i x e. cc;
}

pub delete-IsConsistent :
    (s : SessionStore) (id : String) → IsConsistent s → IsConsistent (Sessions.delete s id)
unfolding Sessions.delete
delete-IsConsistent s id c = go (lookup id s.sessions) refl
  where
    go : (x : Option Session) → lookup id s.sessions ≡ x → IsConsistent (Sessions.delete s id)
    go none e = rw e c
    go (some x) e = rw e (drop_entry-IsConsistent s c id x e)

pub get-IsConsistent :
    (s : SessionStore) (id : String) (now later : Time)
    → IsConsistent s
    → IsConsistent (Sessions.get s id now later).1
unfolding Sessions.get
get-IsConsistent s id now later c = go (lookup id s.sessions) refl
  where
    go :
        (x : Option Session)
        → lookup id s.sessions ≡ x
        → IsConsistent (Sessions.get s id now later).1
    go none e = rw e c
    go (some x) e = elim (Bool-cases (is_expired now x)) [
      | inl late ↦ rw (e, late) (delete-IsConsistent s id c)
      | inr live ↦ rw (e, live) (replace-IsConsistent s id x _ c e refl)
    ]

pub get_by_user_id-IsConsistent :
    (s : SessionStore) (u : Uuid) (now later : Time)
    → IsConsistent s
    → IsConsistent (Sessions.get_by_user_id s u now later).1
unfolding Sessions.get_by_user_id
get_by_user_id-IsConsistent s u now later c = go (lookup u s.by_user_id) refl
  where
    go :
        (found : Option String)
        → lookup u s.by_user_id ≡ found
        → IsConsistent (Sessions.get_by_user_id s u now later).1
    go none e = rw e c
    go (some id) e = rw e (get-IsConsistent s id now later c)

pub extend-IsConsistent :
    (s : SessionStore) (id : String) (now later : Time)
    → IsConsistent s
    → IsConsistent (Sessions.extend s id now later).1
unfolding Sessions.extend
extend-IsConsistent s id now later c = go (lookup id s.sessions) refl
  where
    go :
        (x : Option Session)
        → lookup id s.sessions ≡ x
        → IsConsistent (Sessions.extend s id now later).1
    go none e = rw e c
    go (some x) e = rw e (replace-IsConsistent s id x _ c e refl)

-- A session under a new id for a user whose other sessions are gone keeps the maps consistent.
add-IsConsistent :
    (s : SessionStore) (u : Uuid) (id : String) (x : Session) (rest : List (String × Session))
    → IsConsistent s
    → UniqueKeys rest
    → ((i : String) (y : Session)
        → lookup i rest ≡ some y
        → (lookup i s.sessions ≡ some y) × (y.user_id ≢ u))
    → ((i : String) (y : Session)
        → lookup i s.sessions ≡ some y
        → y.user_id ≢ u
        → lookup i rest ≡ some y)
    → lookup id rest ≡ none
    → x.user_id ≡ u
    → IsConsistent (record s { sessions = insert id x rest; by_user_id = insert u id s.by_user_id })
add-IsConsistent s u id x rest c unique same kept fresh of_u = record {
  indexed = λ v i f. elim (Bool-cases (u == v)) [
    | inl here ↦ (
      x,
      ground (arith, lookup-insert id i x rest, lookup-insert u v id s.by_user_id, str_eq_iff id i),
      ground (arith, ==_iff u v),
    )
    | inr other ↦
        let old : lookup v s.by_user_id ≡ some i =
          ground (arith, lookup-insert u v id s.by_user_id) in
        let (y, stored, of_user) = c.indexed v i old in
        let there : lookup i rest ≡ some y = kept i y stored (λ q. ground (arith, ==_iff u v)) in
        (y, ground (arith, lookup-insert id i x rest, str_eq_iff id i), of_user)
  ];
  keyed = insert-UniqueKeys id x rest unique;
  owned = λ i y f. elim (Bool-cases (str_eq id i)) [
    | inl here ↦ ground (
      arith,
      lookup-insert id i x rest,
      str_eq_iff id i,
      lookup-insert u y.user_id id s.by_user_id,
      ==_iff u y.user_id,
    )
    | inr other ↦
        let there : lookup i rest ≡ some y = ground (arith, lookup-insert id i x rest) in
        let (stored, of_other) = same i y there in
        ground
          (arith, c.owned i y stored, lookup-insert u y.user_id id s.by_user_id, ==_iff u y.user_id)
  ];
}

-- The store that `Create` leaves is consistent if the id that it drew is not in use.
pub create-IsConsistent :
    (s : SessionStore) (u : Uuid) (g : GitHubUser) (access refresh : String)
    (generated : Option String) (now : Time)
    → IsConsistent s
    → ((id : String) → generated ≡ some id → lookup id s.sessions ≡ none)
    → IsConsistent (Sessions.create s u g access refresh generated now).1
unfolding Sessions.create
create-IsConsistent s u g access refresh none now c fresh = c
create-IsConsistent s u g access refresh (some id) now c fresh = go (lookup u s.by_user_id) refl
  where
    go :
        (old : Option String)
        → lookup u s.by_user_id ≡ old
        → IsConsistent (Sessions.create s u g access refresh (some id) now).1
    go none e = rw e (
        add-IsConsistent s u id _ s.sessions c c.keyed
          (λ i y f. (f, λ q. ground (arith, c.owned i y f))) (λ i y f n. f) (fresh id refl) refl)
    go (some old) e =
        let (z, stored, of_u) = c.indexed u old e in
        rw e (
          add-IsConsistent s u id _ (erase old s.sessions) c
            (erase-UniqueKeys old s.sessions c.keyed)
            (λ i y f.
              let there : lookup i s.sessions ≡ some y =
                ground (arith, lookup-erase old i s.sessions) in
              (
                there,
                λ q.
                    ground
                      (arith, c.owned i y there, lookup-erase old i s.sessions, str_eq_iff old i),
              ))
            (λ i y f n. ground (arith, lookup-erase old i s.sessions, str_eq_iff old i))
            (ground (arith, fresh id refl, lookup-erase old id s.sessions)) refl)
