-- ===== src/Segment/EventLaws.antt =====
-- The fields of the event that Track sends, from the subscription.
use mathlib.Core.Path.{fun_ext}
use ocm_service_common.Common.{
  String, Option, none, some, [], ◌∷◌, ◌≡◌, refl, inl, inr, false, str_eq, lookup, In,
  if◌then◌else◌, subst, ◌++◌, Any, In-nil, In-cases,
}
use ocm_service_common.Segment.Types.{from_ptr, nil_to_zero_int32, ApiSubscription}
use ocm_service_common.Segment.Context.{RequestContext}
use ocm_service_common.Segment.Track.{
  Properties, FieldValue, track_fields, blank_eval, int32_value, string_value, time_value,
  bool_value, get_track_params, set_resource_and_subscription,
}
use ocm_service_common.Segment.PropertyLaws.{emitted, skip}

abbrev text_of : Option String → String
text_of none = ""
text_of (some t) = t

abbrev without_eval : String → String
without_eval t = if str_eq t "Eval" then "" else t

-- The fields of the event that have a text, a time or a flag, straight from the subscription.
abbrev pub event_fields : Option ApiSubscription → Properties
event_fields (some s) =
    ("resource_id", string_value s.external_cluster_id)
    ∷ ("resource_created_at", time_value s.created_at)
    ∷ ("resource_provenance", string_value (text_of s.provenance))
    ∷ ("resource_status", string_value s.status)
    ∷ ("resource_managed", bool_value s.managed)
    ∷ ("subscription_billing_model", string_value (text_of s.cluster_billing_model))
    ∷ ("subscription_support_level", string_value (without_eval (text_of s.support_level)))
    ∷ ("subscription_service_level", string_value (without_eval (text_of s.service_level)))
    ∷ ("subscription_usage", string_value (without_eval (text_of s.usage)))
    ∷ ("subscription_system_units", string_value (without_eval (text_of s.system_units)))
    ∷ []
event_fields none = ("resource_managed", bool_value false) ∷ []

-- The properties of an event: its kind and who started it in lower case, and for each field of the
-- subscription what is sent for it.
pub record IsEvent (to_lower : String → String) (kind initiator : String)
    (subscription : Option ApiSubscription) (properties : Properties) : Type 0 where
  pub kind_sent : lookup "ocm_resource_type" properties ≡ some (string_value (to_lower kind))
  pub initiator_sent : lookup "initiator" properties ≡ some (string_value (to_lower initiator))
  pub error_sent : lookup "error" properties ≡ some (bool_value false)
  pub field_sent :
      (name : String) (value : FieldValue)
      → In (name, value) (event_fields subscription)
      → lookup name properties ≡ emitted to_lower value

text_of-from_ptr : (o : Option String) → text_of o ≡ from_ptr o
unfolding from_ptr
text_of-from_ptr none = refl
text_of-from_ptr (some t) = refl

pub set_resource-given :
    {Ip : Type 0} (ctx : RequestContext Ip) (event kind initiator : String)
    (subscription : Option ApiSubscription) (creator : Option String)
    → let params =
        set_resource_and_subscription
          (get_track_params ctx event kind initiator creator)
          subscription in
      (params.initiator ≡ initiator) × (params.ocm_resource_type ≡ kind)
unfolding set_resource_and_subscription get_track_params
set_resource-given ctx event kind initiator none creator = (refl, refl)
set_resource-given ctx event kind initiator (some s) creator = (refl, refl)

In-append-left : {f : String × FieldValue} (xs ys : Properties) → In f xs → In f (xs ++ ys)
In-append-left [] ys i = absurd (In-nil i)
In-append-left (x ∷ xs) ys (Any.here e) = Any.here e
In-append-left (x ∷ xs) ys (Any.there i) = Any.there (In-append-left xs ys i)

-- The fields of the subscription stand in the table of the code.
pub event_fields-In :
    {Ip : Type 0} (ctx : RequestContext Ip) (event kind initiator : String)
    (subscription : Option ApiSubscription) (creator : Option String) (f : String × FieldValue)
    → let params =
        set_resource_and_subscription
          (get_track_params ctx event kind initiator creator)
          subscription in
      In f (event_fields subscription) → In f (track_fields params.resource params.subscription)
unfolding set_resource_and_subscription get_track_params track_fields blank_eval
event_fields-In ctx event kind initiator none creator f i = elim (In-cases i) [
  | inl e ↦ skip (skip (skip (skip (Any.here e))))
  | inr j ↦ absurd (In-nil j)
]
event_fields-In ctx event kind initiator (some s) creator f i =
    let counts =
      ("subscription_core_count", int32_value (nil_to_zero_int32 s.cpu_total))
      ∷ ("subscription_socket_count", int32_value (nil_to_zero_int32 s.socket_total))
      ∷ [] in
    let here = In-append-left {f = f} (event_fields (some s)) counts i in
    subst
      (λ (t : Option String → String). In f (
        ("resource_id", string_value s.external_cluster_id)
        ∷ ("resource_created_at", time_value s.created_at)
        ∷ ("resource_provenance", string_value (t s.provenance))
        ∷ ("resource_status", string_value s.status)
        ∷ ("resource_managed", bool_value s.managed)
        ∷ ("subscription_billing_model", string_value (t s.cluster_billing_model))
        ∷ ("subscription_support_level", string_value (without_eval (t s.support_level)))
        ∷ ("subscription_service_level", string_value (without_eval (t s.service_level)))
        ∷ ("subscription_usage", string_value (without_eval (t s.usage)))
        ∷ ("subscription_system_units", string_value (without_eval (t s.system_units)))
        ∷ counts))
      (fun_ext text_of-from_ptr) here
