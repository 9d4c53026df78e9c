-- ===== src/Sessions/Revocation.antt =====
-- A token that was revoked before it expires.
use mathlib.Core.List.{◌++◌}
use mathlib.Core.Path.{subst}
use secure_voting_platform.Prelude.{
  ◌++◌, ℕ, ◌<◌, ◌≡◌, refl, ap, Bool, true, false, Option, none, some, List, [], ◌∷◌, find,
  find-holds, arith, inl, inr, Option-cases,
}
use secure_voting_platform.Prelude.Int.{ℤ, pos, negsuc, is_id}
use secure_voting_platform.Prelude.Text.{Text, is_empty}
use secure_voting_platform.Json.{Json, value, to_int, Converted}
use secure_voting_platform.Models.{Store, User}
use secure_voting_platform.Accounts.{has_user_id}
use secure_voting_platform.AccountLife.{Request, perform, perform_all, find-by_id}
use secure_voting_platform.AccountLife.Invariants.{IsSound, perform_all-IsSound}
use secure_voting_platform.AccountLife.Persistence.{perform_all-Persists}
use secure_voting_platform.Sessions.Defs.{
  load_token, is_anonymous_ballot, Claims, Endpoint, Identified, Bind, logged_in, is_version,
  session_user, load_user_from_jwt, unix,
}
use secure_voting_platform.Sessions.Revoking.{Revokes, perform-Advanced}

is_id_unique : (z : ℤ) (m n : ℕ) → is_id z m ≡ true → is_id z n ≡ true → m ≡ n
is_id_unique (pos k) m n h e = ground (arith, h, e)
is_id_unique (negsuc k) m n h e = absurd (cc h)

is_version_unique : (j : Json) (m n : ℕ) → is_version j m ≡ true → is_version j n ≡ true → m ≡ n
is_version_unique (Json.int z) m n h e = is_id_unique z m n h e
is_version_unique Json.null m n h e = absurd (cc h)
is_version_unique (Json.bool _) m n h e = absurd (cc h)
is_version_unique (Json.real _) m n h e = absurd (cc h)
is_version_unique (Json.str _) m n h e = absurd (cc h)
is_version_unique (Json.arr _) m n h e = absurd (cc h)
is_version_unique (Json.obj _) m n h e = absurd (cc h)

module _ (lifetime : ℕ) (encode : Claims → Text)
    (decode : (seconds : ℕ) → Text → Option Claims) where
  -- The user of a session is the one of the token's subject, in the token's version.
  abbrev Current : Claims → List User → User → Type 0
  Current c us u =
      (z : ℤ) × (to_int c.sub ≡ value z)
      × (find (λ (x : User). is_id z x.id) us ≡ some u)
      × (is_version c.ver u.session_version ≡ true)

  session_user-Current :
      (c : Claims) (us : List User) {u : User}
      → session_user lifetime encode decode c us ≡ some u
      → Current c us u
  unfolding session_user
  session_user-Current c us {u} h = read (to_int c.sub) refl
    where
      read : (k : Converted ℤ) → to_int c.sub ≡ k → Current c us u
      read (value z) e = (z, e, ground (arith, h, e), ground (arith, h, e))
      read Converted.rejected e = absurd (ground (arith, h, e))
      read Converted.crash e = absurd (ground (arith, h, e))

  load_token-user :
      (now : ℕ) (endpoint : Endpoint) (token : Text) (us : List User) {u : User} {b : Bind}
      {f : Option Text}
      → load_token lifetime encode decode now endpoint token us ≡ logged_in u b f
      → (c : Claims) × (decode (unix now) token ≡ some c)
        × (session_user lifetime encode decode c us ≡ some u)
  unfolding load_token
  load_token-user now endpoint token us {u} {b} {f} h =
      elim (Option-cases (decode (unix now) token)) [
        | inl unread ↦ absurd (ground (arith, h, unread))
        | inr (c, is_read) ↦ elim (Option-cases (session_user lifetime encode decode c us)) [
          | inl nobody ↦ absurd (ground (arith, h, is_read, nobody))
          | inr (w, current) ↦ (c, is_read, ground (arith, h, is_read, current))
        ]
      ]

  load_user-user :
      (testing has_session : Bool) (now : ℕ) (endpoint : Endpoint) (token : Text) (us : List User)
      {u : User} {b : Bind} {f : Option Text}
      → load_user_from_jwt lifetime encode decode testing has_session now endpoint (some token) us
        ≡ logged_in u b f
      → (is_empty token ≡ false)
        × (load_token lifetime encode decode now endpoint token us ≡ logged_in u b f)
  unfolding load_user_from_jwt
  load_user-user testing has_session now endpoint token us {u} {b} {f} h =
      (ground (arith, h), ground (arith, h))

  load_user-refused :
      (testing has_session : Bool) (now : ℕ) (endpoint : Endpoint) (token : Text) (us : List User)
      → is_anonymous_ballot endpoint ≡ false
      → is_empty token ≡ false
      → ((c : Claims)
          → decode (unix now) token ≡ some c
          → session_user lifetime encode decode c us ≡ none)
      → load_user_from_jwt lifetime encode decode testing has_session now endpoint (some token) us
        ≡ Identified.rejected
  unfolding load_user_from_jwt load_token
  load_user-refused testing has_session now endpoint token us other given spent =
      elim (Option-cases (decode (unix now) token)) [
        | inl unread ↦ ground (arith, other, given, unread)
        | inr (c, is_read) ↦ ground (arith, other, given, is_read, spent c is_read)
      ]

module _ (lifetime : ℕ) (generate_hash : Text → Text) (check_hash : (stored password : Text) → Bool)
    (encode : Claims → Text) (decode : (seconds : ℕ) → Text → Option Claims) where
  -- A newer version of the user spends the claims.
  newer-spent :
      (m : ℕ) (c : Claims) (us vs : List User) (u v : User)
      → IsSound generate_hash check_hash m vs
      → session_user lifetime encode decode c us ≡ some u
      → find (has_user_id u.id) vs ≡ some v
      → u.session_version < v.session_version
      → session_user lifetime encode decode c vs ≡ none
  newer-spent m c us vs u v sound before now newer =
      elim (Option-cases (session_user lifetime encode decode c vs)) [
        | inl spent ↦ spent
        | inr (w, current) ↦
            let (z, sub, here, version) = session_user-Current lifetime encode decode c us before in
            let (y, sub', there, version') =
              session_user-Current lifetime encode decode c vs current in
            let same_sub : z ≡ y = ground (arith, sub, sub') in
            let id_here = find-holds (λ (x : User). is_id z x.id) us here in
            let id_there = find-holds (λ (x : User). is_id y x.id) vs there in
            let same_id : u.id ≡ w.id =
              is_id_unique y u.id w.id (subst (λ k. is_id k u.id ≡ true) same_sub id_here)
                id_there in
            let at_id = find-by_id m (λ (x : User). is_id y x.id) vs sound.numbered there in
            let at_own : find (has_user_id u.id) vs ≡ some w = rw same_id at_id in
            let same : v ≡ w = ground (arith, now, at_own) in
            let old =
              is_version_unique c.ver u.session_version w.session_version version version' in
            absurd (omega (arith, old, newer, ap (λ (x : User). x.session_version) same))
      ]

module _ (lifetime : ℕ) (lic_hmac : Text → Text) (generate_hash : Text → Text)
    (check_hash : (stored password : Text) → Bool) (encode : Claims → Text)
    (decode : (seconds : ℕ) → Text → Option Claims) where
  perform_all-append :
      (rs qs : List (ℕ × Request)) (s : Store)
      → perform_all lic_hmac generate_hash check_hash (rs ++ qs) s
        ≡ perform_all lic_hmac generate_hash check_hash qs
            (perform_all lic_hmac generate_hash check_hash rs s)
  perform_all-append [] qs s = refl
  perform_all-append ((now, r) ∷ rs) qs s =
      perform_all-append rs qs (perform lic_hmac generate_hash check_hash now r s)

  -- Revocation: once a token was accepted for a user, and then that user's password was changed or
  -- reset or the account was rejected, the token is never accepted again, whatever requests come
  -- before and after and whenever it is presented: every page but the anonymous ballot clears the
  -- session. The accounts are sound, and a token reads as the same claims whenever it reads.
  pub load_user-revoked :
      ((t t' : ℕ) (read : Text) (c c' : Claims)
        → decode t read ≡ some c
        → decode t' read ≡ some c'
        → c ≡ c')
      → (testing has_session : Bool) (at : ℕ) (endpoint : Endpoint) (token : Text) (s : Store)
        (u : User) (b : Bind) (f : Option Text)
      → IsSound generate_hash check_hash s.next_id s.users
      → load_user_from_jwt lifetime encode decode testing has_session at endpoint
          (some token)
          s.users
        ≡ logged_in u b f
      → (before : List (ℕ × Request)) (now : ℕ) (r : Request)
      → Revokes generate_hash check_hash u.id now
          (perform_all lic_hmac generate_hash check_hash before s)
          r
      → (after : List (ℕ × Request)) (testing' has_session' : Bool) (later : ℕ)
        (endpoint' : Endpoint)
      → is_anonymous_ballot endpoint' ≡ false
      → (let t = perform_all lic_hmac generate_hash check_hash (before ++ (now, r) ∷ after) s in
          load_user_from_jwt lifetime encode decode testing' has_session' later endpoint'
            (some token)
            t.users
          ≡ Identified.rejected)
  load_user-revoked steady testing has_session at endpoint token s u b f sound loaded before now r
        revokes after testing' has_session' later endpoint' other =
      let (given, got) =
        load_user-user lifetime encode decode testing has_session at endpoint token s.users
          loaded in
      let (c, is_read, current) =
        load_token-user lifetime encode decode at endpoint token s.users got in
      let (z, sub, found, version) =
        session_user-Current lifetime encode decode c s.users current in
      let here = find-by_id s.next_id (λ (x : User). is_id z x.id) s.users sound.numbered found in
      let s1 = perform_all lic_hmac generate_hash check_hash before s in
      let sound1 = perform_all-IsSound lic_hmac generate_hash check_hash before s sound in
      let (u1, here1, _, grown1) =
        perform_all-Persists lic_hmac generate_hash check_hash before s u.id u sound here in
      let (u2, here2, newer) =
        perform-Advanced lic_hmac generate_hash check_hash u.id now r s1 u1 here1 revokes in
      let s2 = perform lic_hmac generate_hash check_hash now r s1 in
      let sound2 =
        perform_all-IsSound lic_hmac generate_hash check_hash ((now, r) ∷ []) s1 sound1 in
      let (u3, here3, _, grown3) =
        perform_all-Persists lic_hmac generate_hash check_hash after s2 u.id u2 sound2 here2 in
      let t = perform_all lic_hmac generate_hash check_hash after s2 in
      let sound3 = perform_all-IsSound lic_hmac generate_hash check_hash after s2 sound2 in
      let spent =
        newer-spent lifetime generate_hash check_hash encode decode t.next_id c s.users t.users u u3
          sound3 current here3 (omega (arith, grown1, newer, grown3)) in
      rw (perform_all-append before ((now, r) ∷ after) s) (
        load_user-refused lifetime encode decode testing' has_session' later endpoint' token t.users
          other given
          (λ c' e.
            subst (λ k. session_user lifetime encode decode k t.users ≡ none)
              (steady (unix at) (unix later) token c c' is_read e) spent))
