-- ===== src/Notifications/Tests.antt =====
-- The theorem of the client at a concrete payload.
use ocm_service_common.Common.{ℕ, String, none, [], ◌≡◌, ◌↔◌}
use ocm_service_common.Common.Result.{Result, ok}
use ocm_service_common.Notifications.Client.{
  post, Answer, NotificationPayload, ClientConfiguration, Response, send,
}
use ocm_service_common.Notifications.Laws.{send-IsAccepted_iff, IsAccepted}

abbrev notification : NotificationPayload
notification = record {
  id = "1";
  bundle = "openshift";
  application = "ocm";
  event_type = "created";
  timestamp = "2024-01-01T00:00:00Z";
  org_id = "42";
  events = [];
  recipients = [];
}

abbrev configuration : ClientConfiguration
configuration = record { base_url = "https://n"; proxy_url = ""; cert = "c"; key = "k" }

abbrev encode : NotificationPayload → Result String String
encode payload = ok payload.id

abbrev request_of : String → String → Result String String
request_of url body = ok body

abbrev refuse : String → Result String (Response String)
refuse request = ok record { status_code = 200; body = ok "{}" }

abbrev reason : ℕ → String
reason status = "error"

abbrev decode : String → Result String Answer
decode body = ok record { result = "error"; details = "unknown bundle" }

send-IsAccepted_iff_example :
    (send encode request_of refuse reason decode configuration notification ≡ none)
    ↔ IsAccepted encode request_of refuse reason decode
        (post encode request_of refuse reason decode configuration notification)
send-IsAccepted_iff_example =
    send-IsAccepted_iff encode request_of refuse reason decode configuration notification
