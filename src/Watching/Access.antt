-- ===== src/Watching/Access.antt =====
-- From services/auth.ts and services/network/index.ts on the client to auth/auth.guard.ts on the
-- server: the session of a user, as the guard sees the requests.
use csv_product_uploader.Prelude.{
  true, false, ℕ, List, Option, none, some, String, str_eq, eq_iff, ◌≡◌, refl, subst, ap, ◌∙◌,
  arith, Bool-cases, inl, inr,
}
use csv_product_uploader.Js.Text.{Text, codes}
use csv_product_uploader.Client.Session
use csv_product_uploader.Client.Session.{
  Storage, AuthState, handle_signup, handle_login, handle_logout, set_session, clear_session,
}
use csv_product_uploader.Client.Network.{attach_auth_token, event_source_request}
use csv_product_uploader.Server.Auth.{
  User, session, truthy, extract_token, admitted, unauthorized, find_user, can_activate, signup,
  login,
}
use csv_product_uploader.Server.Auth.Tokens.{IsToken, bearer, signup-opens}

token_truthy :
    (t : String) → truthy (some (codes t)) ≡ some (codes t) → Session.truthy (some t) ≡ some t
token_truthy t h = elim (Bool-cases (str_eq t "")) [
  | inl empty ↦
      let none_left : truthy (some (codes "")) ≡ some (codes "") =
        subst (λ x. truthy (some (codes x)) ≡ some (codes x)) ((eq_iff t "").0 empty) h in
      absurd (ground arith)
  | inr full ↦ rw full refl
]

attach_auth_token-bearer :
    (t : String) (s : Storage)
    → s.token ≡ some t
    → Session.truthy (some t) ≡ some t
    → attach_auth_token s ≡ bearer (codes t)
unfolding attach_auth_token
attach_auth_token-bearer t s e h = rw (e, h) refl

module _ (sign : String → String) (verify : Text → Option String) where
  -- `sign` of the server, with its text as the client keeps it.
  abbrev sign_codes : String → Text
  sign_codes id = codes (sign id)

  -- A user signs up: the server's reply holds a token, and the client that stores it on a sign-up,
  -- or on a later log-in, is admitted as that user with every request to a route that is not public;
  -- the server's reply to the log-in is the same. After the log-out the guard refuses what the client
  -- sends to these routes. The route of the event source is public: with the token in its address or
  -- after the log-out, its request is admitted, with no user. If the storage throws, the client's requests are decided as before the log-in, though
  -- its state says that the user is authenticated. Asked is that the id is new, that the token
  -- signed for it is verified as that user's, and that this token is not empty and has no space.
  pub session-opens :
      (id : String) (now : ℕ) (users : List User) (a : AuthState) (s : Storage)
      → verify (codes (sign id)) ≡ some id
      → IsToken (codes (sign id))
      → find_user id users ≡ none
      → let guard = can_activate sign_codes verify false in
        let guard_events = can_activate sign_codes verify true in
        let reply = Session.session (sign id) id in
        ((signup sign_codes verify id now users).0 ≡ session (codes (sign id)) id)
        × (login sign_codes verify id (signup sign_codes verify id now users).1
            ≡ session (codes (sign id)) id)
        × (guard (attach_auth_token (handle_signup false reply (a, s)).1) ≡ admitted (some id))
        × (guard (attach_auth_token (handle_login false reply (a, s)).1) ≡ admitted (some id))
        × (guard_events (event_source_request (handle_login false reply (a, s)).1) ≡ admitted none)
        × (guard (attach_auth_token (handle_logout (handle_login false reply (a, s))).1)
            ≡ unauthorized)
        × (guard_events (event_source_request (handle_logout (handle_login false reply (a, s))).1)
            ≡ admitted none)
        × (guard (attach_auth_token (handle_login true reply (a, s)).1)
            ≡ guard (attach_auth_token s))
        × ((handle_login true reply (a, s)).0.is_authenticated ≡ true)
  unfolding handle_signup handle_login handle_logout set_session clear_session attach_auth_token
      event_source_request can_activate extract_token
  session-opens id now users a s v k n =
      let o = signup-opens sign_codes verify id now users v k n in
      let t = token_truthy (sign id) k.0 in
      let stored : Storage = record s { token = some (sign id) } in
      let guard = can_activate sign_codes verify false in
      let by_header = ap guard (attach_auth_token-bearer (sign id) stored refl t) ∙ o.2 in
      (o.0, o.1, by_header, by_header, refl, refl, refl, refl, refl)
