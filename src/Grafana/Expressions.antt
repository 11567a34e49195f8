-- ===== src/Grafana/Expressions.antt =====
-- pkg/grafana/generate_grafana.go: `prepareExpressions`, `updateGrafanaService`. `fmt.Sprintf` of the
-- format that the configuration gives is a parameter.
use ocm_service_common.Common.{
  String, Bool, true, false, Option, none, some, List, [], ◌∷◌, if◌then◌else◌,
}
use ocm_service_common.Grafana.Outcome.{Outcome, returns, panics, ◌>>=◌, dereference}
use ocm_service_common.Grafana.Replace.{replace_all}
use ocm_service_common.Common.Text.{concat, contains}
use ocm_service_common.Grafana.Types.Config.{ConfigPanelItem, Exception}

-- The formats, filled in.
abbrev pub availability_format : String → String → String
availability_format service path = concat (
    "\nsum(increase(api_inbound_request_count{namespace=\"$namespace\",service=~\"" ∷ service
    ∷ "\",path=\"" ∷ path
    ∷ "\",code!~\"5..|0\"SA}[$__range]))\n/\nsum(increase(api_inbound_request_count{namespace=\"$namespace\",service=~\""
    ∷ service ∷ "\",path=\"" ∷ path ∷ "\"SA}[$__range]))\n" ∷ [])

abbrev pub requests_format : String → String → String
requests_format service path = concat (
    "\nsum by (code, method) (rate(api_inbound_request_count{namespace=\"$namespace\",service=~\""
    ∷ service ∷ "\",path=\"" ∷ path ∷ "\"SA}[$__rate_interval]))\n" ∷ [])

abbrev pub errors1_format : String → String → String
errors1_format service path = concat (
    "\nsum (rate(api_inbound_request_count{namespace=\"$namespace\",service=~\"" ∷ service
    ∷ "\",path=\"" ∷ path
    ∷ "\",code!~\"2..\"SA}[$__range]))\n/\nsum (rate(api_inbound_request_count{namespace=\"$namespace\",service=~\""
    ∷ service ∷ "\",path=\"" ∷ path ∷ "\"SA}[$__range]))\n" ∷ [])

abbrev pub errors2_format : String → String → String
errors2_format service path = concat (
    "\nsum (rate(api_inbound_request_count{namespace=\"$namespace\",service=~\"" ∷ service
    ∷ "\",path=\"" ∷ path
    ∷ "\",code=~\"5..|0\"SA}[$__range]))\n/\nsum (rate(api_inbound_request_count{namespace=\"$namespace\",service=~\""
    ∷ service ∷ "\",path=\"" ∷ path ∷ "\"SA}[$__range]))\n" ∷ [])

abbrev pub duration_format : String → String → String
duration_format service path = concat (
    "\nsum (increase(api_inbound_request_duration_sum{namespace=\"$namespace\",service=~\""
    ∷ service ∷ "\",path=\"" ∷ path
    ∷ "\",code!~\"5..|0\"SA}[$__range]))\n/\nsum (increase(api_inbound_request_duration_count{namespace=\"$namespace\",service=~\""
    ∷ service ∷ "\",path=\"" ∷ path ∷ "\",code!~\"5..|0\"SA}[$__range]))\n" ∷ [])

abbrev pub latency_format : String → String → String
latency_format service path = concat (
    "\nsum(increase(api_inbound_request_duration_bucket{namespace=\"$namespace\",service=~\""
    ∷ service ∷ "\",path=\"" ∷ path
    ∷ "\",code!~\"5..|0\",le=\"1\"SA}[$__range]))\n/\nsum(increase(api_inbound_request_duration_count{namespace=\"$namespace\",service=~\""
    ∷ service ∷ "\",path=\"" ∷ path ∷ "\",code!~\"5..|0\"SA}[$__range]))\n" ∷ [])

abbrev pub errors3_format : String → String → String
errors3_format service path = concat (
    "\nsum (rate(api_inbound_request_count{namespace=\"$namespace\",service=~\"" ∷ service
    ∷ "\",path=\"" ∷ path
    ∷ "\",code=~\"4..|0\"SA}[$__range]))\n/\nsum (rate(api_inbound_request_count{namespace=\"$namespace\",service=~\""
    ∷ service ∷ "\",path=\"" ∷ path ∷ "\"SA}[$__range]))\n" ∷ [])

pub record Expressions : Type 0 where
  pub availability : String
  pub requests : String
  pub errors1 : String
  pub errors2 : String
  pub errors3 : Option String
  pub duration : String
  pub latency : String

-- What stands for "SA" in the end.
abbrev pub account_filter : Bool → String
account_filter true = ""
account_filter false = ",service_account=~\"$account\""

module _ (sprintf : String → List String → String) where
  -- The third expression, before "SA" is replaced; an exception without one is a nil dereference.
  unfoldable pub errors3_expression : String → String → Exception → Outcome String
  unfolding contains replace_all
  errors3_expression service path exception =
      if contains path exception.path
      then elim exception.errors3 [
        | none ↦ panics
        | some format ↦ returns (
            sprintf (replace_all format "grafana.service" service)
              (path ∷ exception.method ∷ path ∷ exception.method ∷ []))
      ]
      else returns (errors3_format service path)

  unfoldable pub prepare_expressions : String → Bool → String → Exception → Outcome Expressions
  unfolding errors3_expression replace_all
  prepare_expressions service skip_service_account path exception = do
    expression ← errors3_expression service path exception
    let filter = account_filter skip_service_account
    returns record {
      availability = replace_all (availability_format service path) "SA" filter;
      requests = replace_all (requests_format service path) "SA" filter;
      errors1 = replace_all (errors1_format service path) "SA" filter;
      errors2 = replace_all (errors2_format service path) "SA" filter;
      errors3 = some (replace_all expression "SA" filter);
      duration = replace_all (duration_format service path) "SA" filter;
      latency = replace_all (latency_format service path) "SA" filter;
    }

abbrev with_service : String → String → String
with_service service expression = replace_all expression "grafana.service" service

abbrev with_service_option : String → Option String → Option String
with_service_option service none = none
with_service_option service (some expression) = some (with_service service expression)

-- `updateGrafanaService`; a nil dereference panics.
unfoldable pub update_grafana_service : ConfigPanelItem → String → Outcome ConfigPanelItem
unfolding replace_all
update_grafana_service item service = do
  availability ← dereference item.availability
  requests ← dereference item.requests
  errors1 ← dereference item.errors1
  errors2 ← dereference item.errors2
  duration ← dereference item.duration
  latency ← dereference item.latency
  returns (record item {
    availability = some (with_service service availability);
    requests = some (with_service service requests);
    errors1 = some (with_service service errors1);
    errors2 = some (with_service service errors2);
    errors3 = with_service_option service item.errors3;
    duration = some (with_service service duration);
    latency = some (with_service service latency);
  })
