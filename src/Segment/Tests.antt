-- ===== src/Segment/Tests.antt =====
-- The theorems of the Segment client at a concrete subscription, account and request.
use ocm_service_common.Common.{
  String, Bool, true, Option, none, some, [], ◌∷◌, ◌≡◌, ◌≢◌, refl, lookup, In, Any,
}
use ocm_service_common.Common.Int.{pos}
use ocm_service_common.Common.Result.{Result, ok}
use ocm_service_common.Segment.Types.{
  ApiSubscription, AuthPayload, ClientConfiguration, Account, Subscription, TrackParams,
}
use ocm_service_common.Segment.Context.{
  set_context, RequestContext, set_segment_context, get_user_id,
}
use ocm_service_common.Segment.Track.{
  Properties, track_event, FieldValue, Message, track, track_properties, string_value, enqueue,
  report_metrics, close, track_fields, empty_resource,
}
use ocm_service_common.Segment.PropertyLaws.{
  emitted, track_properties-lookup, track_properties-no_counts,
}
use ocm_service_common.Segment.EventLaws.{IsEvent}
use ocm_service_common.Segment.TrackLaws.{Sends, track-Sends}

abbrev lower : String → String
lower s = s

abbrev subscription : Subscription
subscription = record {
  billing_model = "standard";
  support_level = "eval";
  service_level = "L1-L3";
  usage = "";
  system_units = "Eval";
  cpu_total = pos 8;
  socket_total = pos 2;
}

abbrev params : TrackParams
params = record {
  web_user_id = "u1";
  event = "created";
  ocm_resource_type = "cluster";
  initiator = "user";
  resource = empty_resource;
  subscription = subscription;
}

billing_model-In :
    In {A = String × FieldValue}
      ("subscription_billing_model", string_value "standard")
      (track_fields empty_resource subscription)
unfolding track_fields
billing_model-In = Any.there (Any.there (Any.there (Any.there (Any.there (Any.here refl)))))

track_properties-lookup_example :
    lookup "subscription_billing_model" (track_properties lower params)
    ≡ emitted lower (string_value "standard")
track_properties-lookup_example = track_properties-lookup lower params billing_model-In

track_properties-no_counts_example :
    (lookup "subscription_core_count" (track_properties lower params) ≡ none)
    × (lookup "subscription_socket_count" (track_properties lower params) ≡ none)
track_properties-no_counts_example = track_properties-no_counts lower params

abbrev payload : AuthPayload
payload = record {
  client_id = "sa-1";
  rhit_user_id = "u7";
  locale = "en_US";
  org_id = "o1";
  rhit_account_number = "42";
}

abbrev parse_ip : String → Option String
parse_ip s = some s

abbrev accepting : Message String → Option String
accepting m = none

abbrev connect : String → Result String (Message String → Option String)
connect key = ok accepting

abbrev config : ClientConfiguration
config = record { key = "k"; version = "v1" }

abbrev ctx : RequestContext String
ctx = set_segment_context parse_ip payload "u1" "curl" "10.0.0.1:80" ""

abbrev account : Account
account = record {
  rhit_web_user_id = some "u1";
  email = "a@redhat.com";
  first_name = "A";
  last_name = "B";
  org_ebs_account_id = none;
  org_external_id = "o1";
}

runs : Unit {0}
unfolding get_user_id set_segment_context
runs = tt

user_found : get_user_id ctx (some "c1") ≢ ""
unfolding runs
user_found = cc

ready : Sends connect "k" (get_user_id ctx (some "c1")) accepting
ready = record { has_key = cc; known_user = user_found; connected = refl }

abbrev cluster : ApiSubscription
cluster = record {
  created_at = 5;
  provenance = some "OCM";
  status = "Active";
  managed = true;
  external_cluster_id = "c-1";
  cluster_billing_model = none;
  support_level = some "Eval";
  service_level = none;
  usage = some "Production";
  system_units = none;
  cpu_total = some (pos 8);
  socket_total = none;
}

abbrev created_by : Properties → Message String
created_by properties =
    track_event (get_user_id ctx (some "c1")) "created" properties (set_context ctx config.version)

track-Sends_example :
    (properties : Properties) × IsEvent lower "cluster" "user" (some cluster) properties
    × (track lower connect config ctx "created" "cluster" "user" (some cluster) (some "c1")
        ≡ (enqueue (created_by properties) ∷ report_metrics none ∷ close ∷ [], none))
track-Sends_example =
    track-Sends lower connect config ctx "created" "cluster" "user" (some cluster) (some "c1") ready

account_found : get_user_id ctx account.rhit_web_user_id ≢ ""
unfolding runs
account_found = cc

account_ready : Sends connect "k" (get_user_id ctx account.rhit_web_user_id) accepting
account_ready = record { has_key = cc; known_user = account_found; connected = refl }

abbrev is_internal : String → Bool
is_internal email = true
