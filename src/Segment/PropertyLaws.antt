-- ===== src/Segment/PropertyLaws.antt =====
-- The properties of a tracked event (the loop over `fields` in `Track`).
use ocm_service_common.Common.{zero, suc}
use ocm_service_common.Common.{
  suc, String, Bool, true, false, not, ◌&&◌, Option, none, some, List, [], ◌∷◌, ◌≡◌, ◌∙◌, refl,
  arith, str_eq, eq_iff, if◌then◌else◌, lookup, lookup-insert, has, In, In-cases, In-nil, Any, ap,
  inl, inr, ◌==◌,
}
use ocm_service_common.Common.Int.{pos, negsuc}
use ocm_service_common.Segment.Types.{Resource, Subscription, TrackParams}
use ocm_service_common.Segment.Track.{
  FieldValue, Properties, int_value, int32_value, int64_value, string_value, bool_value, time_value,
  set_field, set_fields, track_fields, track_properties,
}

abbrev names : Properties → List String
names [] = []
names ((name, value) ∷ fields) = name ∷ names fields

-- No name stands twice.
abbrev distinct : List String → Bool
distinct [] = true
distinct (s ∷ ss) = not (has s ss) && distinct ss

has-names :
    {key : String} {value : FieldValue} (fields : Properties)
    → In (key, value) fields
    → has key (names fields) ≡ true
has-names [] i = absurd (In-nil i)
has-names {key} {value} ((name, w) ∷ fields) i = elim (In-cases i) [
  | inl e ↦ ground (arith, eq_iff key name, ap (λ (f : String × FieldValue). f.0) e)
  | inr j ↦ ground (arith, has-names {key = key} {value = value} fields j)
]

-- No name of the first list stands in the second.
abbrev apart : List String → List String → Bool
apart [] other = true
apart (s ∷ ss) other = not (has s other) && apart ss other

apart-has :
    (key : String) (ss other : List String)
    → apart ss other ≡ true
    → has key ss ≡ true
    → has key other ≡ false
apart-has key [] other a h = cc
apart-has key (s ∷ ss) other a h = ground (arith, eq_iff key s, apart-has key ss other)

lookup-names :
    (key : String) (fields : Properties) → has key (names fields) ≡ false → lookup key fields ≡ none
unfolding lookup
lookup-names key [] h = refl
lookup-names key ((name, value) ∷ fields) h =
    ground (arith, eq_iff key name, eq_iff name key, lookup-names key fields)

abbrev or_else : Option FieldValue → Option FieldValue → Option FieldValue
or_else none other = other
or_else (some v) other = some v

or_else-none : (o : Option FieldValue) {p : Option FieldValue} → p ≡ none → or_else o p ≡ o
or_else-none none h = h
or_else-none (some v) h = refl

module _ (to_lower : String → String) where
  -- What is sent for a field: nothing for an empty text or the zero time, and nothing for an integer
  -- of the types int and int32.
  abbrev pub emitted : FieldValue → Option FieldValue
  emitted (int_value v) = none
  emitted (int32_value v) = none
  emitted (int64_value (pos zero)) = none
  emitted (int64_value v) = some (int64_value v)
  emitted (string_value v) = if str_eq v "" then none else some (string_value (to_lower v))
  emitted (bool_value v) = some (bool_value v)
  emitted (time_value v) = if v == 0 then none else some (time_value v)

  lookup-set_field :
      (name key : String) (value : FieldValue) (properties : Properties)
      → lookup key (set_field to_lower name value properties) ≡ (
          if str_eq name key
          then or_else (emitted value) (lookup key properties)
          else lookup key properties)
  unfolding set_field
  lookup-set_field name key (int_value v) ps = ground arith
  lookup-set_field name key (int32_value v) ps = ground arith
  lookup-set_field name key (int64_value (pos zero)) ps = ground arith
  lookup-set_field name key (int64_value (pos (suc n))) ps =
      lookup-insert name key (int64_value (pos (suc n))) ps
  lookup-set_field name key (int64_value (negsuc n)) ps =
      lookup-insert name key (int64_value (negsuc n)) ps
  lookup-set_field name key (string_value v) ps =
      ground (arith, lookup-insert name key (string_value (to_lower v)) ps)
  lookup-set_field name key (bool_value v) ps = lookup-insert name key (bool_value v) ps
  lookup-set_field name key (time_value v) ps =
      ground (arith, lookup-insert name key (time_value v) ps)

  lookup-set_fields_fresh :
      (key : String) (fields properties : Properties)
      → has key (names fields) ≡ false
      → lookup key (set_fields to_lower fields properties) ≡ lookup key properties
  unfolding set_fields
  lookup-set_fields_fresh key [] ps h = refl
  lookup-set_fields_fresh key ((name, value) ∷ fields) ps h = ground (
    arith,
    eq_iff key name,
    eq_iff name key,
    lookup-set_field name key value ps,
    lookup-set_fields_fresh key fields (set_field to_lower name value ps),
  )

  lookup-set_fields :
      (key : String) (value : FieldValue) (fields properties : Properties)
      → distinct (names fields) ≡ true
      → In (key, value) fields
      → lookup key (set_fields to_lower fields properties)
        ≡ or_else (emitted value) (lookup key properties)
  unfolding set_fields
  lookup-set_fields key value [] ps d i = absurd (In-nil i)
  lookup-set_fields key value ((name, w) ∷ fields) ps d i = elim (In-cases i) [
    | inl e ↦ ground (
      arith,
      eq_iff name key,
      ap (λ (f : String × FieldValue). f.0) e,
      ap (λ (f : String × FieldValue). f.1) e,
      lookup-set_field name key w ps,
      lookup-set_fields_fresh key fields (set_field to_lower name w ps),
    )
    | inr j ↦ ground (
      arith,
      eq_iff name key,
      lookup-set_field name key w ps,
      has-names {key = key} {value = value} fields j,
      lookup-set_fields key value fields (set_field to_lower name w ps) (ground arith) j,
    )
  ]

names-distinct : (r : Resource) (s : Subscription) → distinct (names (track_fields r s)) ≡ true
unfolding track_fields
names-distinct r s = refl

names-apart :
    (r : Resource) (s : Subscription)
    → apart (names (track_fields r s)) ("initiator" ∷ "ocm_resource_type" ∷ "error" ∷ []) ≡ true
unfolding track_fields
names-apart r s = refl

module _ (to_lower : String → String) (params : TrackParams) {name : String}
    {value : FieldValue} where
  -- In the event of Track, the property of a name of the table `fields` is what the switch gives for
  -- its value: there for a text that is not empty (in lower case), a flag, and a time that is not
  -- zero, and absent otherwise. Names do not get in each other's way.
  pub track_properties-lookup :
      In (name, value) (track_fields params.resource params.subscription)
      → lookup name (track_properties to_lower params) ≡ emitted to_lower value
  unfolding track_properties
  track_properties-lookup i =
      lookup-set_fields to_lower name value (track_fields params.resource params.subscription)
        (("initiator", string_value (to_lower params.initiator))
          ∷ ("ocm_resource_type", string_value (to_lower params.ocm_resource_type))
          ∷ ("error", bool_value false)
          ∷ [])
        (names-distinct params.resource params.subscription) i
      ∙ or_else-none (emitted to_lower value) (
          lookup-names name
            (("initiator", string_value (to_lower params.initiator))
              ∷ ("ocm_resource_type", string_value (to_lower params.ocm_resource_type))
              ∷ ("error", bool_value false)
              ∷ [])
            (apart-has name (names (track_fields params.resource params.subscription))
              ("initiator" ∷ "ocm_resource_type" ∷ "error" ∷ [])
              (names-apart params.resource params.subscription)
              (has-names {key = name} {value = value}
                (track_fields params.resource params.subscription) i)))

-- The properties that every event has.
pub track_properties-given :
    (to_lower : String → String) (params : TrackParams)
    → (lookup "initiator" (track_properties to_lower params)
        ≡ some (string_value (to_lower params.initiator)))
      × (lookup "ocm_resource_type" (track_properties to_lower params)
          ≡ some (string_value (to_lower params.ocm_resource_type)))
      × (lookup "error" (track_properties to_lower params) ≡ some (bool_value false))
unfolding track_properties track_fields lookup
track_properties-given to_lower params =
    let fields = track_fields params.resource params.subscription in
    let given =
      ("initiator", string_value (to_lower params.initiator))
      ∷ ("ocm_resource_type", string_value (to_lower params.ocm_resource_type))
      ∷ ("error", bool_value false)
      ∷ [] in
    (
      lookup-set_fields_fresh to_lower "initiator" fields given refl,
      lookup-set_fields_fresh to_lower "ocm_resource_type" fields given refl,
      lookup-set_fields_fresh to_lower "error" fields given refl,
    )

pub skip : {f g : String × FieldValue} {fs : Properties} → In f fs → In f (g ∷ fs)
skip i = Any.there i

-- Whatever the subscription's counts are, an event of Track has no property
-- "subscription_core_count" and none "subscription_socket_count".
pub track_properties-no_counts :
    (to_lower : String → String) (params : TrackParams)
    → (lookup "subscription_core_count" (track_properties to_lower params) ≡ none)
      × (lookup "subscription_socket_count" (track_properties to_lower params) ≡ none)
unfolding track_fields
track_properties-no_counts to_lower params = (
  track_properties-lookup to_lower params
      (skip (skip (skip (skip (skip (skip (skip (skip (skip (skip (Any.here refl))))))))))),
  track_properties-lookup to_lower params
      (skip (skip (skip (skip (skip (skip (skip (skip (skip (skip (skip (Any.here refl)))))))))))),
)
