-- ===== src/Jira/FieldLaws.antt =====
-- The fields of a new issue.
use ocm_service_common.Common.{
  if◌then◌else◌, String, Option, none, some, List, [], ◌∷◌, ◌++◌, ◌≡◌, arith, str_eq, append_assoc,
  sym, append-nil,
}
use ocm_service_common.Jira.Fields.{FieldsConfiguration, given, append_given, issue_fields}

-- The texts of a list of pointers that are there and not empty, in order.
abbrev pub texts_given : List (Option String) → List String
texts_given [] = []
texts_given (none ∷ ps) = texts_given ps
texts_given (some s ∷ ps) = if str_eq s "" then texts_given ps else s ∷ texts_given ps

append_given-texts :
    (ps : List (Option String)) (texts : List String)
    → append_given ps texts ≡ texts ++ texts_given ps
unfolding append_given given
append_given-texts [] texts = sym (append-nil texts)
append_given-texts (none ∷ ps) texts = append_given-texts ps texts
append_given-texts (some s ∷ ps) texts = ground (
  arith,
  append_given-texts ps texts,
  append_given-texts ps (texts ++ s ∷ []),
  append_assoc texts (s ∷ []) (texts_given ps),
)

-- The labels of a new issue are the labels of the configuration, in order, less those that are nil
-- or empty; so are its components.
issue_fields-labels :
    {V : Type 0} (config : FieldsConfiguration V) (account_id : String)
    → ((issue_fields config account_id).labels ≡ texts_given config.labels)
      × ((issue_fields config account_id).components ≡ texts_given config.components)
unfolding issue_fields
issue_fields-labels config account_id =
    (append_given-texts config.labels [], append_given-texts config.components [])
