-- ===== src/Jira/CreateLaws.antt =====
-- The creation of an issue (`CreateIssue`).
use ocm_service_common.Common.{
  String, Option, none, some, List, [], ◌∷◌, ◌≡◌, ◌≢◌, ◌⊎◌, inl, inr, refl, arith, str_eq, eq_iff,
  Bool-cases, sym, ap, ◌∙◌, ◌++◌, append-nil, append_assoc, if◌then◌else◌,
}
use ocm_service_common.Common.Result.{Result, ok, err, Run, returns, panics, Result-cases}
use ocm_service_common.Utils.Validation.{
  validate, validate_string_field_not_empty, validate_nil_object,
}
use ocm_service_common.Jira.Fields.{
  append_given, given, text_or_empty, FieldsConfiguration, IssueFields, issue_fields,
  validate_fields_config,
}
use ocm_service_common.Jira.Client.{
  CreateAnswer, created, refused, create_issue, create_valid, after_check, create_result,
  get_account_id,
}

-- A text field of the configuration that is there and not empty.
abbrev pub IsGiven : Option String → Type 0
IsGiven field = (s : String) × (field ≡ some s) × (s ≢ "")

validate-IsGiven :
    (field : Option String) (name : String) (rules : List (Option String))
    → validate (validate_string_field_not_empty field name ∷ rules) ≡ none
    → IsGiven field × (validate rules ≡ none)
unfolding validate validate_string_field_not_empty
validate-IsGiven none name rules h = cc
validate-IsGiven (some s) name rules h = elim (Bool-cases (str_eq s "")) [
  | inl e ↦ ground (arith, e)
  | inr e ↦ ((s, refl, ground (arith, eq_iff s "")), ground (arith, e))
]

-- A text of the issue is the one that is configured, which is there and not empty.
abbrev pub IsText : Option String → String → Type 0
IsText field s = (field ≡ some s) × (s ≢ "")

-- An optional text of the issue: there exactly where one is configured that is not empty.
abbrev pub IsOptional : Option String → Option String → Type 0
IsOptional field (some s) = IsText field s
IsOptional field none = (field ≡ none) ⊎ (field ≡ some "")

-- The texts that are there and not empty.
abbrev pub kept_texts : List (Option String) → List String
kept_texts [] = []
kept_texts (none ∷ ps) = kept_texts ps
kept_texts (some s ∷ ps) = if str_eq s "" then kept_texts ps else s ∷ kept_texts ps

append_given-kept_texts :
    (ps : List (Option String)) (texts : List String)
    → append_given ps texts ≡ texts ++ kept_texts ps
unfolding append_given given
append_given-kept_texts [] texts = sym (append-nil texts)
append_given-kept_texts (none ∷ ps) texts = append_given-kept_texts ps texts
append_given-kept_texts (some s ∷ ps) texts = elim (Bool-cases (str_eq s "")) [
  | inl e ↦ ground (arith, e, append_given-kept_texts ps texts)
  | inr e ↦ ground (
    arith,
    e,
    append_given-kept_texts ps (texts ++ s ∷ []) ∙ append_assoc texts (s ∷ []) (kept_texts ps),
  )
]

given-IsOptional : (field : Option String) → IsOptional field (given field)
unfolding given
given-IsOptional none = inl refl
given-IsOptional (some s) = elim (Bool-cases (str_eq s "")) [
  | inl e ↦ rw e (inr (ap some ((eq_iff s "").0 e)))
  | inr e ↦ rw e (refl, ground (arith, eq_iff s ""))
]

given-text :
    (field : Option String)
    → (field ≡ some (text_or_empty (given field)))
      ⊎ ((field ≡ none) × (text_or_empty (given field) ≡ ""))
unfolding given
given-text none = inr (refl, refl)
given-text (some s) = elim (Bool-cases (str_eq s "")) [
  | inl e ↦ rw e (inl (ap some ((eq_iff s "").0 e)))
  | inr e ↦ rw e (inl refl)
]

-- The fields of an issue that is created, against the configuration and the users that Jira finds.
pub record IsConfigured {V : Type 0} (find : String → Result String (List String))
    (config : FieldsConfiguration V) (fields : IssueFields V) : Type 0 where
  pub summary : IsText config.summary fields.summary
  pub issue_type : IsText config.issue_type fields.issue_type
  pub project : IsText config.project fields.project_key
  pub description :
      (config.description ≡ some fields.description)
      ⊎ ((config.description ≡ none) × (fields.description ≡ ""))
  pub assignee : IsOptional config.assignee fields.assignee
  pub priority : IsOptional config.priority fields.priority
  pub labels : fields.labels ≡ kept_texts config.labels
  pub components : fields.components ≡ kept_texts config.components
  pub reporter :
      (email : String) × (others : List String) × IsText config.reporter email
      × (find email ≡ ok (fields.reporter_account_id ∷ others))

IsGiven-IsText : (field : Option String) → IsGiven field → IsText field (text_or_empty field)
IsGiven-IsText (some s) (t, e, k) = (refl, λ x. k (cc (e, x)))
IsGiven-IsText none (t, e, k) = cc e

validate_fields_config-IsGiven :
    {V : Type 0} (config : FieldsConfiguration V)
    → validate_fields_config (some config) ≡ returns none
    → IsGiven config.summary
      × IsGiven config.reporter
      × IsGiven config.issue_type
      × IsGiven config.project
unfolding validate_fields_config validate_nil_object validate
validate_fields_config-IsGiven config h =
    let h₀ : validate (
          validate_string_field_not_empty config.summary "summary"
          ∷ validate_string_field_not_empty config.reporter "reporter"
          ∷ validate_string_field_not_empty config.issue_type "issue_type"
          ∷ validate_string_field_not_empty config.project "project"
          ∷ [])
        ≡ none =
      ground arith in
    let (s, h₁) = validate-IsGiven config.summary "summary" _ h₀ in
    let (r, h₂) = validate-IsGiven config.reporter "reporter" _ h₁ in
    let (t, h₃) = validate-IsGiven config.issue_type "issue_type" _ h₂ in
    let (p, h₄) = validate-IsGiven config.project "project" _ h₃ in (s, r, t, p)

List-cases : {A : Type 0} (xs : List A) → (xs ≡ []) ⊎ ((x : A) × (ys : List A) × (xs ≡ x ∷ ys))
List-cases [] = inl refl
List-cases (x ∷ xs) = inr (x, xs, refl)

create_result-created :
    {I : Type 0} (answer : CreateAnswer I) (issue : I)
    → create_result answer ≡ returns (ok issue)
    → answer ≡ created issue
unfolding create_result
create_result-created (created i) issue h = ground arith
create_result-created (refused e none) issue h = cc
create_result-created (refused e (some (ok payload))) issue h = cc
create_result-created (refused e (some (err read_err))) issue h = cc

module _ {V I : Type 0} (find : String → Result String (List String))
    (create : IssueFields V → CreateAnswer I) where
  get_account_id-first :
      (email account_id : String)
      → get_account_id find email ≡ ok account_id
      → (others : List String) × (find email ≡ ok (account_id ∷ others))
  unfolding get_account_id
  get_account_id-first email account_id h = elim (Result-cases (find email)) [
    | inr (e, fails) ↦ ground (arith, fails)
    | inl (users, found) ↦ elim (List-cases users) [
      | inl none_found ↦ ground (arith, found, none_found)
      | inr (u, others, some_found) ↦ (others, ground (arith, found, some_found))
    ]
  ]

  create_valid_sound :
      (config : FieldsConfiguration V) (issue : I)
      → create_valid find create config ≡ returns (ok issue)
      → (account_id : String) × (others : List String) × (find (text_or_empty config.reporter)
          ≡ ok (account_id ∷ others))
        × (create (issue_fields config account_id) ≡ created issue)
  unfolding create_valid
  create_valid_sound config issue h =
      elim (Result-cases (get_account_id find (text_or_empty config.reporter))) [
        | inr (e, fails) ↦ ground (arith, fails)
        | inl (account_id, found) ↦
            let (others, first) =
              get_account_id-first (text_or_empty config.reporter) account_id found in
            (
              account_id,
              others,
              first,
              create_result-created (create (issue_fields config account_id)) issue
                  (ground (arith, found)),
            )
      ]

  after_check-valid :
      (config : FieldsConfiguration V) (issue : I) (checked : Run (Option String))
      → after_check find create (some config) checked ≡ returns (ok issue)
      → (checked ≡ returns none) × (create_valid find create config ≡ returns (ok issue))
  unfolding after_check
  after_check-valid config issue panics h = cc
  after_check-valid config issue (returns (some e)) h = cc
  after_check-valid config issue (returns none) h = (refl, h)

  -- An issue that CreateIssue returns was made by Jira from fields of which summary, type and project
  -- are the ones of the configuration, which are not empty, and the description is its description,
  -- empty if there is none; labels and components are the configured ones that are not empty, assignee
  -- and priority as well; and the account of the reporter is that of
  -- the first user that Jira finds for the reporter's address.
  pub create_issue_sound :
      (config : FieldsConfiguration V) (issue : I)
      → create_issue find create (some config) ≡ returns (ok issue)
      → (fields : IssueFields V) × (create fields ≡ created issue) × IsConfigured find config fields
  unfolding create_issue issue_fields
  create_issue_sound config issue h =
      let (valid, made) = after_check-valid config issue (validate_fields_config (some config)) h in
      let (account_id, others, first, created_it) = create_valid_sound config issue made in
      let (s, r, t, p) = validate_fields_config-IsGiven config valid in
      (
        issue_fields config account_id,
        created_it,
        record {
          summary = IsGiven-IsText config.summary s;
          issue_type = IsGiven-IsText config.issue_type t;
          project = IsGiven-IsText config.project p;
          description = given-text config.description;
          assignee = given-IsOptional config.assignee;
          priority = given-IsOptional config.priority;
          labels = append_given-kept_texts config.labels [];
          components = append_given-kept_texts config.components [];
          reporter =
              (text_or_empty config.reporter, others, IsGiven-IsText config.reporter r, first);
        },
      )
