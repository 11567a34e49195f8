-- ===== src/Jira/Tests.antt =====
-- The theorems of the Jira client at concrete answers of Jira.
use ocm_service_common.Common.{
  ℕ, ◌≤◌, String, none, some, List, [], ◌∷◌, ◌≡◌, ◌↔◌, refl, str_eq, if◌then◌else◌,
}
use ocm_service_common.Common.Result.{Result, ok, err, returns}
use ocm_service_common.Utils.Validation.{
  validate, validate_string_field_not_empty, validate_nil_object,
}
use ocm_service_common.Jira.Fields.{FieldsConfiguration, IssueFields, validate_fields_config}
use ocm_service_common.Jira.Client.{
  CreateAnswer, created, create_issue, create_valid, after_check, create_result, get_account_id,
  get_all_issues,
}
use ocm_service_common.Jira.ClientLaws.{Pages, get_all_issues-Pages_iff}
use ocm_service_common.Jira.CreateLaws.{IsConfigured, create_issue_sound}
use ocm_service_common.Jira.Transport.{round_trip, Request, Store}
use ocm_service_common.Jira.TransportLaws.{round_trip_leaves, IsAuthorized}

abbrev search : String → Result String (List ℕ × String)
search token = if str_eq token "" then ok (1 ∷ 2 ∷ [], "p2") else ok (3 ∷ [], "")

get_all_issues-Pages_iff_example :
    (get_all_issues search 2 ≡ some (ok (1 ∷ 2 ∷ 3 ∷ [])))
    ↔ ((n : ℕ) × (n ≤ 2) × Pages search "" n (1 ∷ 2 ∷ 3 ∷ []))
get_all_issues-Pages_iff_example = get_all_issues-Pages_iff search 2 (1 ∷ 2 ∷ 3 ∷ [])

abbrev limited : String → Result String (List ℕ × String)
limited token = if str_eq token "" then ok (1 ∷ [], "p2") else err "429 Too Many Requests"

abbrev config : FieldsConfiguration String
config = record {
  summary = some "Disk full";
  description = none;
  project = some "OHSS";
  reporter = some "a@redhat.com";
  assignee = none;
  issue_type = some "Bug";
  priority = none;
  labels = some "urgent" ∷ none ∷ some "" ∷ [];
  components = [];
  unknowns = ("Team", "sre") ∷ [];
}

abbrev find : String → Result String (List String)
find email = ok ("acc" ∷ [])

abbrev create : IssueFields String → CreateAnswer String
create fields = created "OHSS-1"

created_it : create_issue find create (some config) ≡ returns (ok "OHSS-1")
unfolding create_issue create_valid after_check validate_fields_config validate get_account_id
    create_result validate_string_field_not_empty validate_nil_object
created_it = refl

create_issue_sound_example :
    (fields : IssueFields String) × (create fields ≡ created "OHSS-1")
    × IsConfigured find config fields
create_issue_sound_example = create_issue_sound find create config "OHSS-1" created_it

-- Two maps, of which the request has the second.
abbrev two_headers : Store
two_headers = [] ∷ (("Accept", "*/*" ∷ []) ∷ []) ∷ []

abbrev get_issue : Request
get_issue = record { method = "GET"; url = "https://j/rest"; header = 1 }

abbrev status_of : Store → Request → ℕ
status_of store r = 200

round_trip_leaves_example :
    (sent_store : Store) × (sent : Request) × IsAuthorized "t" two_headers get_issue sent_store sent
    × (round_trip status_of none "t" two_headers get_issue
        ≡ (sent_store, status_of sent_store sent))
round_trip_leaves_example =
    round_trip_leaves status_of none status_of "t" two_headers get_issue refl
