-- ===== src/Segment/TrackLaws.antt =====
-- What Track and TrackAccount send, and when.
use ocm_service_common.Segment.EventLaws.{IsEvent, set_resource-given, event_fields-In}
use ocm_service_common.Common.{
  ◌⊎◌, String, Bool, Option, none, some, [], ◌∷◌, ◌≡◌, ◌≢◌, refl, arith, eq_iff, inl, inr,
  Option-cases, ◌∙◌, ap,
}
use ocm_service_common.Common.Result.{Result, ok}
use ocm_service_common.Segment.Types.{ApiSubscription, ClientConfiguration, Account}
use ocm_service_common.Segment.Context.{RequestContext, get_user_id, set_context}
use ocm_service_common.Segment.Track.{
  Properties, string_value, Message, track_event, identify, group, enqueue, report_metrics, close,
  get_track_params, set_resource_and_subscription, track, track_properties,
}
use ocm_service_common.Segment.PropertyLaws.{track_properties-lookup, track_properties-given}
use ocm_service_common.Segment.Identify.{track_account, send_account, account_traits, group_traits}

set_resource-user :
    {Ip : Type 0} (ctx : RequestContext Ip) (event kind initiator : String)
    (subscription : Option ApiSubscription) (creator : Option String)
    → (set_resource_and_subscription
        (get_track_params ctx event kind initiator creator)
        subscription).web_user_id
      ≡ get_user_id ctx creator
unfolding set_resource_and_subscription get_track_params
set_resource-user ctx event kind initiator none creator = refl
set_resource-user ctx event kind initiator (some s) creator = refl

-- The service sends an event: it has a key, the user is known, and the connection is made.
pub record Sends {Ip : Type 0} (connect : String → Result String (Message Ip → Option String))
    (key user : String) (send : Message Ip → Option String) : Type 0 where
  pub has_key : key ≢ ""
  pub known_user : user ≢ ""
  pub connected : connect key ≡ ok send

module _ {Ip : Type 0} (to_lower : String → String)
    (connect : String → Result String (Message Ip → Option String)) (config : ClientConfiguration)
    (ctx : RequestContext Ip) (event kind initiator : String)
    (subscription : Option ApiSubscription) (creator : Option String) where
  -- The properties that the code builds.
  abbrev built : Properties
  built = track_properties to_lower (
      set_resource_and_subscription (get_track_params ctx event kind initiator creator)
        subscription)

  built-IsEvent : IsEvent to_lower kind initiator subscription built
  built-IsEvent =
      let params =
        set_resource_and_subscription (get_track_params ctx event kind initiator creator)
          subscription in
      let (first, second, third) = track_properties-given to_lower params in
      let (same_initiator, same_kind) =
        set_resource-given ctx event kind initiator subscription creator in
      record {
        kind_sent = second ∙ ap (λ (x : String). some (string_value (to_lower x))) same_kind;
        initiator_sent =
            first ∙ ap (λ (x : String). some (string_value (to_lower x))) same_initiator;
        error_sent = third;
        field_sent = λ name value i.
            track_properties-lookup to_lower params
              (event_fields-In ctx event kind initiator subscription creator (name, value) i);
      }

  -- Where the service has a key, the user is known and the connection is made, Track sends one event
  -- for that user, then reports the answer to the metrics, closes the connection and returns the
  -- answer. The properties of the event are the kind and the initiator in lower case, no error, and for
  -- each field of the subscription but its two counts what the event has of its value: a text in lower
  -- case, nothing for an empty text, for a level "Eval" or for the zero time, and otherwise the value.
  pub track-Sends :
      {send : Message Ip → Option String}
      → Sends connect config.key (get_user_id ctx creator) send
      → (properties : Properties) × IsEvent to_lower kind initiator subscription properties
        × (let message =
              track_event
                (get_user_id ctx creator)
                event
                properties
                (set_context ctx config.version) in
            track to_lower connect config ctx event kind initiator subscription creator
            ≡ (enqueue message ∷ report_metrics (send message) ∷ close ∷ [], send message))
  unfolding track
  track-Sends {send} s = (
    built,
    built-IsEvent,
    ground (
      arith,
      s.has_key,
      s.known_user,
      s.connected,
      eq_iff config.key "",
      eq_iff (get_user_id ctx creator) "",
      set_resource-user ctx event kind initiator subscription creator,
    ),
  )

  -- Without a key, or for a user that is not known, Track sends nothing and returns no error.
  track-silent :
      (config.key ≡ "") ⊎ (get_user_id ctx creator ≡ "")
      → track to_lower connect config ctx event kind initiator subscription creator ≡ ([], none)
  unfolding track
  track-silent h = ground (
    arith,
    h,
    eq_iff config.key "",
    eq_iff (get_user_id ctx creator) "",
    set_resource-user ctx event kind initiator subscription creator,
  )

module _ {Ip : Type 0} (is_internal : String → Bool)
    (connect : String → Result String (Message Ip → Option String)) (config : ClientConfiguration)
    (ctx : RequestContext Ip) (account : Account) (is_org_admin : Option Bool) where
  -- Where the service has a key, the user is known and the connection is made, TrackAccount first
  -- identifies the user; it sends the group of the same user only if that succeeded, and returns
  -- the first error. The connection is closed last.
  track_account-order :
      {send : Message Ip → Option String}
      → Sends connect config.key (get_user_id ctx account.rhit_web_user_id) send
      → let user = get_user_id ctx account.rhit_web_user_id in
        let first =
          identify user
            (account_traits is_internal account is_org_admin)
            (set_context ctx config.version) in
        let second =
          group user account.org_external_id
            (group_traits account)
            (set_context ctx config.version) in
        ((send first ≡ none)
          × (track_account is_internal connect config ctx (some account) is_org_admin
              ≡ (enqueue first ∷ enqueue second ∷ close ∷ [], send second)))
        ⊎ ((e : String) × (send first ≡ some e)
            × (track_account is_internal connect config ctx (some account) is_org_admin
                ≡ (enqueue first ∷ close ∷ [], some e)))
  unfolding track_account send_account
  track_account-order {send} s =
      elim (Option-cases (
        send (
          identify (get_user_id ctx account.rhit_web_user_id)
            (account_traits is_internal account is_org_admin) (set_context ctx config.version)))) [
              | inl fine ↦ inl (
                fine,
                ground (
                  arith,
                  s.has_key,
                  s.known_user,
                  s.connected,
                  eq_iff config.key "",
                  eq_iff (get_user_id ctx account.rhit_web_user_id) "",
                ),
              )
              | inr (e, failed) ↦ inr (
                e,
                failed,
                ground (
                  arith,
                  s.has_key,
                  s.known_user,
                  s.connected,
                  eq_iff config.key "",
                  eq_iff (get_user_id ctx account.rhit_web_user_id) "",
                ),
              )
            ]
