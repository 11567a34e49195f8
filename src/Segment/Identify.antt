-- ===== src/Segment/Identify.antt =====
-- pkg/client/segment/track_service.go: `TrackAccount`, with its connection as in Track.antt. The match of
-- the pattern for internal addresses is a parameter.
use ocm_service_common.Common.{
  String, Bool, not, Option, none, some, List, [], ◌∷◌, str_eq, if◌then◌else◌, insert,
}
use ocm_service_common.Common.Result.{Result, ok, err}
use ocm_service_common.Common.Text.{join, split, concat}
use ocm_service_common.Segment.Types.{Account, ClientConfiguration}
use ocm_service_common.Segment.Context.{RequestContext, get_user_id, set_context}
use ocm_service_common.Segment.Track.{
  Effect, Message, Properties, FieldValue, string_value, bool_value, identify, group, enqueue,
  close,
}

-- The part of a text after the first "@", when it has one (`strings.Cut`).
unfoldable email_domain : String → Option String
unfolding split join
email_domain email = elim (split email 64) [ p ∷ q ∷ ps ↦ some (join (q ∷ ps) "@") | _ ↦ none ]

abbrev text_field : Option String → Option FieldValue
text_field none = none
text_field (some s) = some (string_value s)

abbrev flag_field : Option Bool → Option FieldValue
flag_field none = none
flag_field (some b) = some (bool_value b)

-- A trait that is set when there is a value.
abbrev set_some : String → Option FieldValue → Properties → Properties
set_some name none traits = traits
set_some name (some v) traits = insert name v traits

module _ (is_internal : String → Bool) where
  unfoldable email_traits : String → Properties
  unfolding email_domain insert
  email_traits email =
      if not (str_eq email "")
      then set_some "email_domain" (text_field (email_domain email))
          (("email", string_value email) ∷ ("internal", bool_value (is_internal email)) ∷ [])
      else []

  unfoldable pub account_traits : Account → Option Bool → Properties
  unfolding email_traits insert
  account_traits account is_org_admin =
      insert "name"
        (string_value (
          if not (str_eq account.last_name "")
          then concat (account.first_name ∷ " " ∷ account.last_name ∷ [])
          else account.first_name))
        (set_some "isOrgAdmin" (flag_field is_org_admin) (email_traits account.email))

-- The trait holds the pointer; it is kept as the text that it points to.
unfoldable pub group_traits : Account → Properties
group_traits account = elim account.org_ebs_account_id [
  | none ↦ []
  | some id ↦ ("cloud_ebs_id", string_value id) ∷ []
]

module _ {Ip : Type 0} (is_internal : String → Bool)
    (connect : String → Result String (Message Ip → Option String)) where
  unfoldable pub send_account :
      (Message Ip → Option String) → Message Ip → Message Ip → List (Effect Ip) × Option String
  send_account send first second = elim (send first) [
    | some e ↦ (enqueue first ∷ close ∷ [], some e)
    | none ↦ (enqueue first ∷ enqueue second ∷ close ∷ [], send second)
  ]

  unfoldable pub track_account :
      ClientConfiguration
      → RequestContext Ip
      → Option Account
      → Option Bool
      → List (Effect Ip) × Option String
  unfolding get_user_id account_traits group_traits set_context send_account
  track_account config ctx none is_org_admin = ([], none)
  track_account config ctx (some account) is_org_admin =
      let user = get_user_id ctx account.rhit_web_user_id in
      let context = set_context ctx config.version in
      if str_eq config.key "" then ([], none) else elim (connect config.key) [
        | err e ↦ ([], some e)
        | ok send ↦
            if str_eq user ""
            then (close ∷ [], none)
            else send_account send
                (identify user (account_traits is_internal account is_org_admin) context)
                (group user account.org_external_id (group_traits account) context)
      ]
