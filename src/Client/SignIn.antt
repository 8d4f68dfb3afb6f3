-- ===== src/Client/SignIn.antt =====
-- App.tsx, components/layout/AuthLayout.tsx and `clearError` of hooks/useAuth.ts: the form that a
-- user who is not signed in sees.
use csv_product_uploader.Prelude.{
  Bool, true, false, ◌&&◌, ◌||◌, not, if◌then◌else◌, List, [], ◌∷◌, ◌++◌, none, ◌≡◌, refl,
  Bool-cases, inl, inr, arith,
}
use csv_product_uploader.Js.Text.{Text, trim}
use csv_product_uploader.Client.Session.{AuthState}

-- What the form asks the hook for.
pub data Credential : Type 0 where
  sign_up : Credential
  log_in : Text → Credential

pub record SignInForm : Type 0 where
  pub login_id : Text
  pub is_login_view : Bool
  pub auth : AuthState
  pub requests : List Credential

-- `clearError`
unfoldable pub clear_error : AuthState → AuthState
clear_error a = record a { error = none }

-- `!loginId.trim()`
abbrev pub is_blank : Text → Bool
is_blank [] = true
is_blank (c ∷ s) = false

-- `handleSignup` and `handleLogin`, up to their request.
unfoldable pub send : Credential → SignInForm → SignInForm
send c f = record f {
  auth = record f.auth { is_loading = true; error = none };
  requests = f.requests ++ c ∷ [];
}

-- `handleSubmit`
unfoldable pub handle_submit : SignInForm → SignInForm
handle_submit f =
    if f.is_login_view && not (is_blank (trim f.login_id))
    then send (log_in (trim f.login_id)) (record f { login_id = [] })
    else if not f.is_login_view
    then send sign_up f
    else f

-- `toggleView`
unfoldable pub toggle_view : SignInForm → SignInForm
toggle_view f = record f {
  is_login_view = not f.is_login_view;
  auth = clear_error f.auth;
  login_id = [];
}

pub data FormEvent : Type 0 where
  id_typed : Text → FormEvent
  -- The button, which may be disabled, the key 'Enter' in the field, and the link below.
  button_pressed enter_pressed view_toggled error_dismissed : FormEvent
  -- A reply has come.
  auth_changed : AuthState → FormEvent

-- `disabled`
unfoldable pub is_disabled : SignInForm → Bool
is_disabled f =
    if f.is_login_view then f.auth.is_loading || is_blank (trim f.login_id) else f.auth.is_loading

-- The field is there in the login view only.
unfoldable pub form_step : FormEvent → SignInForm → SignInForm
form_step (id_typed s) f = if f.is_login_view then record f { login_id = s } else f
form_step button_pressed f = if is_disabled f then f else handle_submit f
form_step enter_pressed f = if f.is_login_view then handle_submit f else f
form_step view_toggled f = toggle_view f
form_step error_dismissed f = record f { auth = clear_error f.auth }
form_step (auth_changed a) f = record f { auth = a }

submit_disables : (f : SignInForm) → is_disabled f ≡ false → is_disabled (handle_submit f) ≡ true
unfolding handle_submit is_disabled send
submit_disables f h = elim (Bool-cases f.is_login_view) [
  | inl login ↦ elim (Bool-cases (is_blank (trim f.login_id))) [
    | inl blank ↦ absurd (ground arith)
    | inr full ↦ rw (login, full) refl
  ]
  | inr signup ↦ rw signup refl
]

-- A button that is pressed twice, with nothing in between, sends one request, as if it were pressed
-- once.
pub button_pressed-button_pressed :
    (f : SignInForm)
    → form_step button_pressed (form_step button_pressed f) ≡ form_step button_pressed f
unfolding form_step
button_pressed-button_pressed f = elim (Bool-cases (is_disabled f)) [
  | inl off ↦ rw (off, off) refl
  | inr on ↦ rw (on, submit_disables f on) refl
]
