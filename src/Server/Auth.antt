-- ===== src/Server/Auth.antt =====
-- auth/auth.service.ts, auth/auth.controller.ts and auth/auth.guard.ts. The tokens are those of
-- @nestjs/jwt: `sign` is `jwtService.sign({ sub })`, and `verify` is the `sub` of what `verifyAsync`
-- returns, or none where it throws.
pub mod Tokens
use csv_product_uploader.Prelude.{
  ℕ, Bool, true, false, ◌||◌, if◌then◌else◌, List, [], ◌∷◌, ◌++◌, Option, none, some, String,
  str_eq,
}
use csv_product_uploader.Js.Text.{Text, codes, text_eq, split}

-- auth/entities/user.entity.ts
pub record User : Type 0 where
  pub id : String
  pub created_at : ℕ
  pub updated_at : ℕ

pub record Request : Type 0 where
  -- `headers.authorization`
  pub authorization : Option Text
  -- `query.token`
  pub query_token : Option Text

-- A text that is truthy.
abbrev pub truthy : Option Text → Option Text
truthy none = none
truthy (some []) = none
truthy (some (c ∷ cs)) = some (c ∷ cs)

abbrev pub second_part : List Text → Option Text
second_part [] = none
second_part (t ∷ []) = none
second_part (t ∷ token ∷ ts) = some token

abbrev pub is_bearer : List Text → Bool
is_bearer [] = false
is_bearer (t ∷ ts) = text_eq t (codes "Bearer")

abbrev pub header_parts : Option Text → List Text
header_parts none = []
header_parts (some h) = split b' ' h

-- `extractToken`
unfoldable pub extract_token : Request → Option Text
extract_token r =
    if is_bearer (header_parts r.authorization)
    then second_part (header_parts r.authorization)
    else truthy r.query_token

-- What the guard decides: the request goes on, with the user it sets, or fails with status 401.
pub data Decision : Type 0 where
  admitted : Option String → Decision
  unauthorized : Decision

-- `login`: a token and the user's id, or status 401 with 'User not found'.
pub data Session : Type 0 where
  session : Text → String → Session
  not_found : Session

unfoldable pub find_user : String → List User → Option User
find_user id [] = none
find_user id (u ∷ us) = if str_eq u.id id then some u else find_user id us

module _ (sign : String → Text) (verify : Text → Option String) where
  abbrev pub decide_payload : Option String → Decision
  decide_payload none = unauthorized
  decide_payload (some sub) = admitted (some sub)

  abbrev pub decide_token : Option Text → Decision
  decide_token none = unauthorized
  decide_token (some t) = decide_payload (verify t)

  -- `canActivate`
  unfoldable pub can_activate : Bool → Request → Decision
  can_activate is_public r =
      if is_public then admitted none else decide_token (truthy (extract_token r))

  -- `signup`; the database chooses the id.
  unfoldable pub signup : String → ℕ → List User → Session × List User
  signup id now users =
      (session (sign id) id, users ++ record { id = id; created_at = now; updated_at = now } ∷ [])

  abbrev pub session_of : Option User → Session
  session_of none = not_found
  session_of (some u) = session (sign u.id) u.id

  -- `login`
  unfoldable pub login : String → List User → Session
  login id users = session_of (find_user id users)
