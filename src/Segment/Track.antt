-- ===== src/Segment/Track.antt =====
-- pkg/client/segment/track_service.go: `Track`. The analytics library's
-- connection is a parameter: `connect key` fails with an error or gives `Enqueue`, a function to a
-- possible error. So is `strings.ToLower`.
use ocm_service_common.Common.{
  zero, String, Bool, true, false, Option, none, some, List, [], ◌∷◌, str_eq, if◌then◌else◌, insert,
  ◌==◌,
}
use ocm_service_common.Common.Int.{ℤ, pos}
use ocm_service_common.Common.Result.{Result, ok, err}
use ocm_service_common.Segment.Types.{
  Time, Resource, ApiSubscription, Subscription, TrackParams, ClientConfiguration, from_ptr,
  nil_to_zero_int32,
}
use ocm_service_common.Segment.Context.{RequestContext, EventContext, get_user_id, set_context}

-- A value of type `interface{}` with its dynamic type.
pub data FieldValue : Type 0 where
  int_value int32_value int64_value : ℤ → FieldValue
  string_value : String → FieldValue
  bool_value : Bool → FieldValue
  time_value : Time → FieldValue

abbrev pub Properties : Type 0
Properties = List (String × FieldValue)

abbrev pub empty_resource : Resource
empty_resource = record { id = ""; created_at = 0; provenance = ""; status = ""; managed = false }

abbrev empty_subscription : Subscription
empty_subscription = record {
  billing_model = "";
  support_level = "";
  service_level = "";
  usage = "";
  system_units = "";
  cpu_total = pos 0;
  socket_total = pos 0;
}

unfoldable pub get_track_params :
    {Ip : Type 0} → RequestContext Ip → String → String → String → Option String → TrackParams
unfolding get_user_id
get_track_params ctx event ocm_resource_type initiator creator = record {
  web_user_id = get_user_id ctx creator;
  event = event;
  ocm_resource_type = ocm_resource_type;
  initiator = initiator;
  resource = empty_resource;
  subscription = empty_subscription;
}

unfoldable pub set_resource_and_subscription : TrackParams → Option ApiSubscription → TrackParams
unfolding from_ptr nil_to_zero_int32
set_resource_and_subscription params none = params
set_resource_and_subscription params (some s) = record {
  web_user_id = params.web_user_id;
  event = params.event;
  ocm_resource_type = params.ocm_resource_type;
  initiator = params.initiator;
  resource = record {
    id = s.external_cluster_id;
    created_at = s.created_at;
    provenance = from_ptr s.provenance;
    status = s.status;
    managed = s.managed;
  };
  subscription = record {
    billing_model = from_ptr s.cluster_billing_model;
    support_level = from_ptr s.support_level;
    service_level = from_ptr s.service_level;
    usage = from_ptr s.usage;
    system_units = from_ptr s.system_units;
    cpu_total = nil_to_zero_int32 s.cpu_total;
    socket_total = nil_to_zero_int32 s.socket_total;
  };
}

-- One of the tests `if x == "Eval" { x = "" }`.
unfoldable pub blank_eval : String → String
blank_eval level = if str_eq level "Eval" then "" else level

-- The table `fields`, after the four levels are blanked.
unfoldable pub track_fields : Resource → Subscription → Properties
unfolding blank_eval
track_fields r s =
    ("resource_id", string_value r.id)
    ∷ ("resource_created_at", time_value r.created_at)
    ∷ ("resource_provenance", string_value r.provenance)
    ∷ ("resource_status", string_value r.status)
    ∷ ("resource_managed", bool_value r.managed)
    ∷ ("subscription_billing_model", string_value s.billing_model)
    ∷ ("subscription_support_level", string_value (blank_eval s.support_level))
    ∷ ("subscription_service_level", string_value (blank_eval s.service_level))
    ∷ ("subscription_usage", string_value (blank_eval s.usage))
    ∷ ("subscription_system_units", string_value (blank_eval s.system_units))
    ∷ ("subscription_core_count", int32_value s.cpu_total)
    ∷ ("subscription_socket_count", int32_value s.socket_total)
    ∷ []

abbrev is_zero : ℤ → Bool
is_zero (pos zero) = true
is_zero _ = false

-- What the client sends, reports and closes, in order.
pub data Message (Ip : Type 0) : Type 0 where
  track_event : String → String → Properties → EventContext Ip → Message Ip
  identify : String → Properties → EventContext Ip → Message Ip
  group : String → String → Properties → EventContext Ip → Message Ip

pub data Effect (Ip : Type 0) : Type 0 where
  enqueue : Message Ip → Effect Ip
  report_metrics : Option String → Effect Ip
  close : Effect Ip

module _ (to_lower : String → String) where
  -- The switch of the loop over `fields`: a Go case without a body does nothing.
  unfoldable pub set_field : String → FieldValue → Properties → Properties
  set_field name (int_value v) properties = properties
  set_field name (int32_value v) properties = properties
  set_field name (int64_value v) properties =
      if is_zero v then properties else insert name (int64_value v) properties
  set_field name (string_value v) properties =
      if str_eq v "" then properties else insert name (string_value (to_lower v)) properties
  set_field name (bool_value v) properties = insert name (bool_value v) properties
  set_field name (time_value v) properties =
      if v == 0 then properties else insert name (time_value v) properties

  unfoldable pub set_fields : Properties → Properties → Properties
  set_fields [] properties = properties
  set_fields ((name, value) ∷ fields) properties =
      set_fields fields (set_field name value properties)

  unfoldable pub track_properties : TrackParams → Properties
  unfolding set_fields track_fields
  track_properties params = set_fields (track_fields params.resource params.subscription) (
      ("initiator", string_value (to_lower params.initiator))
      ∷ ("ocm_resource_type", string_value (to_lower params.ocm_resource_type))
      ∷ ("error", bool_value false)
      ∷ [])

module _ {Ip : Type 0} (to_lower : String → String)
    (connect : String → Result String (Message Ip → Option String)) where
  unfoldable pub track :
      ClientConfiguration
      → RequestContext Ip
      → String
      → String
      → String
      → Option ApiSubscription
      → Option String
      → List (Effect Ip) × Option String
  unfolding get_track_params set_resource_and_subscription track_properties set_context
  track config ctx event ocm_resource_type initiator subscription creator =
      let params =
        set_resource_and_subscription
          (get_track_params ctx event ocm_resource_type initiator creator) subscription in
      if str_eq config.key ""
      then ([], none)
      else (if str_eq params.web_user_id "" then ([], none) else elim (connect config.key) [
        | err e ↦ ([], some e)
        | ok send ↦
            let message =
              track_event params.web_user_id event (track_properties to_lower params)
                (set_context ctx config.version) in
            (enqueue message ∷ report_metrics (send message) ∷ close ∷ [], send message)
      ])
