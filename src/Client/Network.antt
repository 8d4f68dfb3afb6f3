-- ===== src/Client/Network.antt =====
-- services/network/index.ts and `connect` of hooks/useProgressTracking.ts: the token in the requests.
use csv_product_uploader.Prelude.{◌++◌, Option, none, some, String}
use csv_product_uploader.Js.Text.{Text, codes}
use csv_product_uploader.Client.Session.{Storage, truthy}
use csv_product_uploader.Server.Auth.{Request}

abbrev pub bearer_header : Option String → Option Text
bearer_header none = none
bearer_header (some token) = some (codes "Bearer " ++ codes token)

-- `attachAuthToken`; the other interceptor passes a request on as it is.
unfoldable pub attach_auth_token : Storage → Request
attach_auth_token s = record { authorization = bearer_header (truthy s.token); query_token = none }

abbrev pub token_param : Option String → Option Text
token_param none = none
token_param (some token) = some (codes token)

-- The request of the event source, as the server reads its address: a JWT has no character that an
-- address changes.
unfoldable pub event_source_request : Storage → Request
event_source_request s = record { authorization = none; query_token = token_param (truthy s.token) }
