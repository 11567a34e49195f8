-- ===== src/Notifications/Client.antt =====
-- pkg/client/notifications/client.go and types.go: `NewClient`, `Send`. The parts of the standard library
-- that do input and output are parameters, as are JSON, URLs and certificates; log lines are left out.
use ocm_service_common.Common.{
  ℕ, String, Bool, Option, none, some, List, ◌==◌, str_eq, if◌then◌else◌,
}
use ocm_service_common.Common.Result.{Result, ok, err, ◌>>=◌}

pub record Recipient : Type 0 where
  pub users : List String
  pub emails : List String
  pub ignore_user_preferences : Bool
  pub only_admins : Bool

-- A value of type `interface{}` is its JSON text.
pub record Payload : Type 0 where
  pub subject : String
  pub global_vars : List (String × String)

-- The metadata of an event is an empty struct.
pub record Event : Type 0 where
  pub payload : Payload

-- The context of a payload is an empty struct.
pub record NotificationPayload : Type 0 where
  pub id : String
  pub bundle : String
  pub application : String
  pub event_type : String
  pub timestamp : String
  pub org_id : String
  pub events : List Event
  pub recipients : List Recipient

pub record ClientConfiguration : Type 0 where
  pub base_url : String
  pub proxy_url : String
  pub cert : String
  pub key : String

-- The client that `NewClient` builds: its proxy, if one is set, and its certificate.
pub record Client (Url Cert : Type 0) : Type 0 where
  pub config : ClientConfiguration
  pub proxy : Option Url
  pub certificate : Cert

module _ {Url Cert : Type 0} (parse : String → Result String Url)
    (key_pair : String → String → Result String Cert) where
  -- The proxy of the configuration.
  unfoldable pub proxy_of : ClientConfiguration → Result String (Option Url)
  proxy_of config =
      if str_eq config.proxy_url ""
      then ok none
      else (parse config.proxy_url >>= (λ url. ok (some url)))

  unfoldable pub new_client : ClientConfiguration → Result String (Client Url Cert)
  unfolding proxy_of
  new_client config = do
    base ← parse config.base_url
    proxy ← proxy_of config
    certificate ← key_pair config.cert config.key
    ok record { config = config; proxy = proxy; certificate = certificate }

-- The answer of the service: its status, and the body or the error of reading it.
pub record Response (Bytes : Type 0) : Type 0 where
  pub status_code : ℕ
  pub body : Result String Bytes

-- `responseType`.
pub record Answer : Type 0 where
  pub result : String
  pub details : String

abbrev pub status_ok : ℕ
status_ok = 200

module _ {Bytes Request : Type 0} (marshal : NotificationPayload → Result String Bytes)
    (new_request : String → Bytes → Result String Request)
    (send_request : Request → Result String (Response Bytes)) (status_text : ℕ → String)
    (unmarshal : Bytes → Result String Answer) where
  -- What a body that was read says: one that is not JSON is no error.
  unfoldable pub judge : Result String Answer → Option String
  judge (err e) = none
  judge (ok answer) = if str_eq answer.result "error" then some answer.details else none

  -- What follows the answer of the service.
  unfoldable pub after_response : Response Bytes → Option String
  unfolding judge
  after_response response =
      if response.status_code == status_ok
      then elim response.body [ err e ↦ some e | ok bytes ↦ judge (unmarshal bytes) ]
      else some (status_text response.status_code)

  -- The answer to the request that is sent.
  unfoldable pub post : ClientConfiguration → NotificationPayload → Result String (Response Bytes)
  post config payload = do
    body ← marshal payload
    request ← new_request config.base_url body
    send_request request

  -- `Send`, by the error that it returns.
  unfoldable pub send : ClientConfiguration → NotificationPayload → Option String
  unfolding post after_response
  send config payload = elim (post config payload) [
    | err e ↦ some e
    | ok response ↦ after_response response
  ]
