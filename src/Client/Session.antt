-- ===== src/Client/Session.antt =====
-- services/auth.ts, services/network/response.ts and hooks/useAuth.ts: the session of the client. The
-- claims of a token are what jwt-decode returns, or none where it throws.
pub mod Restore
use csv_product_uploader.Prelude.{
  ℕ, ◌*◌, Bool, true, false, ◌&&◌, ltb, if◌then◌else◌, ◌==◌, Option, none, some, String, str_eq,
}

-- `DecodedToken`
pub record DecodedToken : Type 0 where
  pub sub : String
  pub user_id : Option String
  pub exp : ℕ

-- What `localStorage` holds under the keys of the service.
pub record Storage : Type 0 where
  pub token : Option String
  pub old_token : Option String
  pub old_user_id : Option String

-- A text that is truthy.
abbrev pub truthy : Option String → Option String
truthy none = none
truthy (some s) = if str_eq s "" then none else some s

-- `setSession`; when the storage throws, the error is only logged.
unfoldable pub set_session : Bool → String → Storage → Storage
set_session is_full token s = if is_full then s else record s { token = some token }

-- `logout`
unfoldable pub clear_session : Storage → Storage
clear_session s = record { token = none; old_token = none; old_user_id = none }

abbrev pub or_else : Option String → String → String
or_else none d = d
or_else (some s) d = s

abbrev pub user_of_claims : Option DecodedToken → Option String
user_of_claims none = none
user_of_claims (some c) = some (or_else (truthy c.user_id) c.sub)

-- `decoded.exp > Date.now() / 1000`
abbrev pub is_live : ℕ → Option DecodedToken → Bool
is_live now none = false
is_live now (some c) = ltb now (c.exp * 1000)

pub record AuthState : Type 0 where
  pub is_authenticated : Bool
  pub user_id : Option String
  pub token : Option String
  pub is_loading : Bool
  pub error : Option String

abbrev pub signed_out : AuthState
signed_out = record {
  is_authenticated = false;
  user_id = none;
  token = none;
  is_loading = false;
  error = none;
}

-- A request that fails: axios' error, with the response if there is one.
pub record Response : Type 0 where
  pub status : ℕ
  pub status_text : String
  pub message : Option String

-- What a `catch` block may be given: an `Error`, with the status of its field `response` if it has
-- that field, or the plain object that the interceptor rejects with, which has no such field.
pub data Caught : Type 0 where
  error_object : String → Option ℕ → Caught
  plain_object : String → Caught

abbrev pub message_of_response : Option Response → String
message_of_response none = "Network error. Please try again."
message_of_response (some r) =
    or_else (truthy r.message)
      (or_else (truthy (some r.status_text)) "Network error. Please try again.")

-- `onResponseRejected`
unfoldable pub on_response_rejected : Option Response → Caught
on_response_rejected r = plain_object (message_of_response r)

-- `err instanceof Error ? err.message : 'Signup failed'`
abbrev pub signup_message : Caught → String
signup_message (error_object m status) = m
signup_message (plain_object m) = "Signup failed"

abbrev pub status_message : ℕ → String
status_message status = if status == 401 then "User ID does not exist" else "User not found"

abbrev pub login_message : Caught → String
login_message (error_object m none) = "User not found"
login_message (error_object m (some status)) = status_message status
login_message (plain_object m) = "User not found"

-- The reply of the API: a token and the user's id, or a failure that passes the interceptor.
pub data Reply : Type 0 where
  session : String → String → Reply
  failure : Option Response → Reply

abbrev pub signed_in : String → String → AuthState
signed_in token user = record {
  is_authenticated = true;
  user_id = some user;
  token = some token;
  is_loading = false;
  error = none;
}

abbrev pub failed_with : String → AuthState → AuthState
failed_with m a = record a { is_loading = false; error = some m }

-- `handleSignup`, once the reply is there.
unfoldable pub handle_signup : Bool → Reply → AuthState × Storage → AuthState × Storage
handle_signup is_full (session token user) (a, s) =
    (signed_in token user, set_session is_full token s)
handle_signup is_full (failure r) (a, s) =
    (failed_with (signup_message (on_response_rejected r)) a, s)

-- `handleLogin`, once the reply is there.
unfoldable pub handle_login : Bool → Reply → AuthState × Storage → AuthState × Storage
handle_login is_full (session token user) (a, s) =
    (signed_in token user, set_session is_full token s)
handle_login is_full (failure r) (a, s) =
    (failed_with (login_message (on_response_rejected r)) a, s)

-- `logout` of the hook.
unfoldable pub handle_logout : AuthState × Storage → AuthState × Storage
handle_logout (a, s) = (signed_out, clear_session s)

-- The decision of the effect, for the token, the user's id and whether the token is valid.
abbrev pub restore_with :
    Option String → Option String → Bool → AuthState × Storage → AuthState × Storage
restore_with none user valid (a, s) = (a, s)
restore_with (some t) (some u) true (a, s) =
    (record a { is_authenticated = true; user_id = some u; token = some t }, s)
restore_with (some t) user valid (a, s) = (a, clear_session s)

module _ (decode : String → Option DecodedToken) where
  abbrev pub claims_of : Option String → Option DecodedToken
  claims_of none = none
  claims_of (some t) = decode t

  -- `getUserId`
  unfoldable pub get_user_id : Storage → Option String
  get_user_id s = user_of_claims (claims_of (truthy s.token))

  -- `isValid`
  unfoldable pub is_valid : ℕ → Option String → Bool
  is_valid now token = is_live now (claims_of (truthy token))

  -- The effect on mount.
  unfoldable pub restore : ℕ → AuthState × Storage → AuthState × Storage
  restore now (a, s) =
      restore_with (truthy s.token) (truthy (get_user_id s)) (is_valid now s.token) (a, s)
