-- ===== src/Jira/Fields.antt =====
-- pkg/client/jira/config.go, unknowns.go and custom_field.go, and the validation and the fields of
-- client.go. A pointer is an `Option`, and the values of unknown fields have the type `V`.
use ocm_service_common.Common.{
  ◌++◌, String, not, Option, none, some, List, [], ◌∷◌, str_eq, if◌then◌else◌, lookup, insert,
}
use ocm_service_common.Utils.Validation.{
  ValidateRule, validate, validate_string_field_not_empty, validate_nil_object,
}
use ocm_service_common.Common.Result.{Run, returns, panics}

pub record FieldsConfiguration (V : Type 0) : Type 0 where
  pub summary : Option String
  pub description : Option String
  pub project : Option String
  pub reporter : Option String
  pub assignee : Option String
  pub issue_type : Option String
  pub priority : Option String
  pub labels : List (Option String)
  pub components : List (Option String)
  pub unknowns : List (String × V)

-- The fields of `jira.IssueFields` that the code sets; a text that it does not set is empty.
pub record IssueFields (V : Type 0) : Type 0 where
  pub summary : String
  pub reporter_account_id : String
  pub issue_type : String
  pub project_key : String
  pub assignee : Option String
  pub description : String
  pub labels : List String
  pub priority : Option String
  pub components : List String
  pub unknowns : Option (List (String × V))

record Parameter : Type 0 where
  pub name : String
  pub value : String

unfoldable parameter_rules : List Parameter → List ValidateRule
unfolding validate_string_field_not_empty
parameter_rules [] = []
parameter_rules (param ∷ params) =
    validate_string_field_not_empty (some param.value) param.name ∷ parameter_rules params

unfoldable validate_params : List Parameter → Option String
unfolding parameter_rules validate
validate_params params = validate (parameter_rules params)

-- The rules are built before one is run, and building them reads the fields of the configuration.
unfoldable pub validate_fields_config :
    {V : Type 0} → Option (FieldsConfiguration V) → Run (Option String)
unfolding validate validate_string_field_not_empty validate_nil_object
validate_fields_config none = panics
validate_fields_config (some config) = returns (
    validate (
      validate_nil_object (some config) "Fields configuration"
      ∷ validate_string_field_not_empty config.summary "summary"
      ∷ validate_string_field_not_empty config.reporter "reporter"
      ∷ validate_string_field_not_empty config.issue_type "issue_type"
      ∷ validate_string_field_not_empty config.project "project"
      ∷ []))

abbrev pub known : List (String × String)
known =
    ("Products", "customfield_10868")
    ∷ ("ClusterId", "customfield_10852")
    ∷ ("ClusterOrg", "customfield_10746")
    ∷ ("StoryPoints", "customfield_10028")
    ∷ ("WorkType", "customfield_10464")
    ∷ ("Team", "customfield_10001")
    ∷ []

unfoldable get_unknown_custom_field : String → String
unfolding lookup
get_unknown_custom_field unknown = elim (lookup unknown known) [ none ↦ "" | some field ↦ field ]

-- `p != nil && *p != ""`.
unfoldable pub given : Option String → Option String
given none = none
given (some s) = if not (str_eq s "") then some s else none

-- The loops over labels and components.
unfoldable pub append_given : List (Option String) → List String → List String
unfolding given
append_given [] texts = texts
append_given (p ∷ ps) texts = elim (given p) [
  | none ↦ append_given ps texts
  | some s ↦ append_given ps (texts ++ s ∷ [])
]

unfoldable known_unknowns : {V : Type 0} → List (String × V) → List (String × V) → List (String × V)
unfolding get_unknown_custom_field insert
known_unknowns [] unknowns = unknowns
known_unknowns ((key, value) ∷ fields) unknowns = known_unknowns fields (
    if str_eq (get_unknown_custom_field key) ""
    then unknowns
    else insert (get_unknown_custom_field key) value unknowns)

abbrev pub text_or_empty : Option String → String
text_or_empty none = ""
text_or_empty (some s) = s

abbrev some_unless_empty : {V : Type 0} → List (String × V) → Option (List (String × V))
some_unless_empty [] = none
some_unless_empty (u ∷ us) = some (u ∷ us)

-- The issue that `CreateIssue` builds, after `addIssueFields`.
unfoldable pub issue_fields : {V : Type 0} → FieldsConfiguration V → String → IssueFields V
unfolding append_given known_unknowns given
issue_fields config account_id = record {
  summary = text_or_empty config.summary;
  reporter_account_id = account_id;
  issue_type = text_or_empty config.issue_type;
  project_key = text_or_empty config.project;
  assignee = given config.assignee;
  description = text_or_empty (given config.description);
  labels = append_given config.labels [];
  priority = given config.priority;
  components = append_given config.components [];
  unknowns = some_unless_empty (known_unknowns config.unknowns []);
}
