-- ===== src/Client/Session/Restore.antt =====
-- hooks/useAuth.ts and services/auth.ts: what is left of a session after a reload, and the errors.
use csv_product_uploader.Prelude.{
  ℕ, ◌*◌, ◌<◌, Bool, false, lt→ltb, Option, none, some, String, str_eq, ◌≡◌, refl,
}
use csv_product_uploader.Client.Session.{
  DecodedToken, Storage, AuthState, signed_out, signed_in, failed_with, Response, session, failure,
  set_session, clear_session, on_response_rejected, handle_login, handle_signup, handle_logout,
  restore, get_user_id, is_valid,
}

-- A login that fails shows 'User not found' and a sign-up that fails shows 'Signup failed', whatever
-- the server answers: its message, and the branch of the login for status 401, are never shown, since
-- the interceptor rejects with a plain object. The storage stays as it was.
pub failure-message :
    (is_full : Bool) (r : Option Response) (a : AuthState) (s : Storage)
    → (handle_login is_full (failure r) (a, s) ≡ (failed_with "User not found" a, s))
      × (handle_signup is_full (failure r) (a, s) ≡ (failed_with "Signup failed" a, s))
unfolding handle_login handle_signup on_response_rejected
failure-message is_full r a s = (refl, refl)

module _ (decode : String → Option DecodedToken) where
  -- After a login the page can be loaded again: as long as the token has not expired, the effect on
  -- mount finds the same user and the same token; after a logout it finds nobody. Asked is that the
  -- storage takes the token, that the token is not empty, and that it is a token of that user.
  pub handle_login-restore :
      (now : ℕ) (token user : String) (c : DecodedToken) (a : AuthState) (s : Storage)
      → str_eq token "" ≡ false
      → str_eq user "" ≡ false
      → decode token ≡ some c
      → c.sub ≡ user
      → c.user_id ≡ none
      → now < c.exp * 1000
      → (restore decode now (signed_out, (handle_login false (session token user) (a, s)).1)
          ≡ (signed_in token user, (handle_login false (session token user) (a, s)).1))
        × (restore decode now (handle_logout (handle_login false (session token user) (a, s)))
            ≡ (signed_out, clear_session s))
  unfolding restore handle_login handle_logout set_session clear_session get_user_id is_valid
  handle_login-restore now token user c a s ht hu hd hs hn live =
      (rw (ht, hd, hn, hs, hu, lt→ltb now (c.exp * 1000) live) refl, refl)
