-- ===== src/Jira/Client.antt =====
-- pkg/client/jira/client.go: `CreateIssue`, `GetAccountID`, `PostAttachment` and `GetAllIssues`. The
-- calls of the Jira library are parameters: the users that it finds, the answer to a new issue, and a
-- page of a search with the token of the next one.
use ocm_service_common.Common.{
  ℕ, zero, suc, String, Bool, ◌||◌, Option, none, some, List, [], ◌∷◌, ◌++◌, str_eq, if◌then◌else◌,
}
use ocm_service_common.Common.Result.{Result, ok, err, Run, returns, panics}
use ocm_service_common.Common.Text.{contains}
use ocm_service_common.Jira.Fields.{
  text_or_empty, FieldsConfiguration, IssueFields, validate_fields_config, issue_fields,
}

pub data JiraError : Type 0 where
  invalid failed rate_limited not_found : String → JiraError
  bad_request : JiraError
  unresolved_reporter : String → JiraError → JiraError
  got_response : String → String → JiraError

-- The answer to a new issue: the issue, or an error with the response, which is nil when there is
-- none; its body may fail to be read.
pub data CreateAnswer (I : Type 0) : Type 0 where
  created : I → CreateAnswer I
  refused : String → Option (Result String String) → CreateAnswer I

unfoldable pub get_account_id :
    (String → Result String (List String)) → String → Result JiraError String
get_account_id find email = elim (find email) [
  | err e ↦ err (failed e)
  | ok users ↦ elim users [ [] ↦ err (not_found email) | account_id ∷ rest ↦ ok account_id ]
]

-- What follows `Issue.Create`.
unfoldable pub create_result : {I : Type 0} → CreateAnswer I → Run (Result JiraError I)
create_result (created issue) = returns (ok issue)
create_result (refused e none) = panics
create_result (refused e (some (ok payload))) = returns (err (got_response payload e))
create_result (refused e (some (err read_err))) = returns (err (got_response "N/A" e))

module _ {V I : Type 0} (find : String → Result String (List String))
    (create : IssueFields V → CreateAnswer I) where
  -- What follows the validation.
  unfoldable pub create_valid : FieldsConfiguration V → Run (Result JiraError I)
  unfolding get_account_id create_result issue_fields
  create_valid config = elim (get_account_id find (text_or_empty config.reporter)) [
    | err e ↦ returns (err (unresolved_reporter (text_or_empty config.reporter) e))
    | ok account_id ↦ create_result (create (issue_fields config account_id))
  ]

  -- What follows the run of the validation; the code after it reads the configuration.
  unfoldable pub after_check :
      Option (FieldsConfiguration V) → Run (Option String) → Run (Result JiraError I)
  unfolding create_valid
  after_check config panics = panics
  after_check config (returns (some e)) = returns (err (invalid e))
  after_check none (returns none) = panics
  after_check (some config) (returns none) = create_valid config

  unfoldable pub create_issue : Option (FieldsConfiguration V) → Run (Result JiraError I)
  unfolding validate_fields_config after_check
  create_issue config = after_check config (validate_fields_config config)

unfoldable post_attachment :
    {A : Type 0}
    → (String → String → String → Result String A)
    → Option String
    → Option String
    → String
    → Result JiraError A
post_attachment post none reader name = err bad_request
post_attachment post (some issue_id) none name = err bad_request
post_attachment post (some issue_id) (some content) name = elim (post issue_id content name) [
  | err e ↦ err (failed e)
  | ok attachment ↦ ok attachment
]

unfoldable is_rate_limit_error : String → Bool
unfolding contains
is_rate_limit_error message =
    contains message "HTTP Status 429 – Too Many Requests"
    || contains message "429 Too Many Requests"

unfoldable pub search_error : String → JiraError
unfolding is_rate_limit_error
search_error e = if is_rate_limit_error e then rate_limited e else failed e

-- The loop over the pages, on fuel; without fuel there is no result.
unfoldable pub issues_from :
    {I : Type 0}
    → (String → Result String (List I × String))
    → ℕ
    → String
    → List I
    → Option (Result JiraError (List I))
unfolding search_error
issues_from search zero token issues = none
issues_from search (suc fuel) token issues = elim (search token) [
  | err e ↦ some (err (search_error e))
  | ok page ↦
      let rest = issues_from search fuel page.1 (issues ++ page.0) in
      if str_eq page.1 "" then some (ok (issues ++ page.0)) else rest
]

unfoldable pub get_all_issues :
    {I : Type 0}
    → (String → Result String (List I × String))
    → ℕ
    → Option (Result JiraError (List I))
unfolding issues_from
get_all_issues search fuel = issues_from search fuel "" []
