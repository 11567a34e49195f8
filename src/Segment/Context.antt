-- ===== src/Segment/Context.antt =====
-- pkg/client/segment/client.go: `SetSegmentContext` and `getUserId`, and `setContext` of
-- track_service.go. A field of the context is what `ctx.Value` finds under one key. The parser of
-- addresses (`net.ParseIP`) is a parameter, and an address that it cannot read is `none` (Go's nil,
-- which is `net.IP{}` to its readers).
use ocm_service_common.Common.{
  ℕ, String, Bool, true, not, ◌&&◌, Option, none, some, List, ◌∷◌, str_eq, if◌then◌else◌,
}
use ocm_service_common.Common.Text.{split}
use ocm_service_common.Segment.Types.{AuthPayload}

-- The codes of "," and ":".
abbrev pub comma : ℕ
comma = 44

abbrev pub colon : ℕ
colon = 58

-- The part before the first separator, when there is one.
unfoldable pub first_of : List String → String → String
first_of (p ∷ q ∷ ps) whole = p
first_of _ whole = whole

-- The choice of the address that `net.ParseIP` reads.
unfoldable pub client_address : String → String → String
unfolding split first_of
client_address remote_addr forwarded_for =
    let ip =
      if not (str_eq forwarded_for "")
      then first_of (split forwarded_for comma) forwarded_for
      else remote_addr in
    first_of (split ip colon) ip

-- The values that the request's context has under the keys of types.go.
pub record RequestContext (Ip : Type 0) : Type 0 where
  pub account_id : Option String
  pub user_locale : Option String
  pub org_id : Option String
  pub request_ip : Option (Option Ip)
  pub request_user_agent : Option String
  pub service_account : Option Bool
  pub account_number : Option String
  pub has_client : Bool

unfoldable pub set_segment_context :
    {Ip : Type 0}
    → (String → Option Ip)
    → AuthPayload
    → String
    → String
    → String
    → String
    → RequestContext Ip
unfolding client_address
set_segment_context parse_ip payload rhit_web_user_id user_agent remote_addr forwarded_for =
    record {
      account_id = some (
          if str_eq rhit_web_user_id "" && not (str_eq payload.client_id "")
          then payload.rhit_user_id
          else rhit_web_user_id);
      user_locale = some payload.locale;
      org_id = some payload.org_id;
      request_ip = some (parse_ip (client_address remote_addr forwarded_for));
      request_user_agent = some user_agent;
      service_account = some (not (str_eq payload.client_id ""));
      account_number = some payload.rhit_account_number;
      has_client = true;
    }

unfoldable pub get_user_id : {Ip : Type 0} → RequestContext Ip → Option String → String
get_user_id ctx (some creator) = creator
get_user_id ctx none = elim ctx.account_id [ none ↦ "" | some user_id ↦ user_id ]

-- The context that goes with an event (`analytics.Context`).
pub record EventContext (Ip : Type 0) : Type 0 where
  pub app_name : String
  pub version : String
  pub ip : Option Ip
  pub user_agent : String
  pub locale : String
  pub group_id : String

abbrev text_or_empty : Option String → String
text_or_empty none = ""
text_or_empty (some v) = v

unfoldable pub set_context : {Ip : Type 0} → RequestContext Ip → String → EventContext Ip
set_context ctx version = record {
  app_name = "OCM Account Manager";
  version = version;
  ip = elim ctx.request_ip [ none ↦ none | some ip ↦ ip ];
  user_agent = text_or_empty ctx.request_user_agent;
  locale = text_or_empty ctx.user_locale;
  group_id = text_or_empty ctx.org_id;
}
