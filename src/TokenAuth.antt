-- ===== src/TokenAuth.antt =====
-- pkg/middleware/token.go: the access token of the Authorization header and the account that AMS
-- finds for it. The request builder and the call of AMS are parameters.
pub mod Laws
mod Tests
use ocm_service_common.Common.{
  String, Bool, true, false, not, Option, none, some, List, [], ◌∷◌, str_eq, if◌then◌else◌,
}
use ocm_service_common.Common.Result.{Result, ok, err}
use ocm_service_common.Common.Text.{split}

abbrev pub access_token : String
access_token = "AccessToken"

abbrev context_account_id_key : String
context_account_id_key = "accountID"

abbrev context_account_username_key : String
context_account_username_key = "accountUsername"

pub record Account : Type 0 where
  pub id : String
  pub username : String

-- The SDK's part of the call: building the request, and posting it. `none` is a response without
-- its body; an error's text is all that is kept of it.
pub record TokenAuthorization : Type 0 where
  pub build_request : String → Result String String
  pub post : String → Result String (Option Account)

-- The second part of `user:token`.
abbrev pub token_of_credentials : List String → String
token_of_credentials (user ∷ token ∷ []) = token
token_of_credentials _ = ""

-- The token of `AccessToken credentials`.
unfoldable pub token_of_header_parts : List String → String
unfolding split
token_of_header_parts (scheme ∷ credentials ∷ []) =
    if str_eq scheme access_token then token_of_credentials (split credentials b':') else ""
token_of_header_parts _ = ""

unfoldable pub token_from_header : String → String
unfolding token_of_header_parts split
token_from_header auth_header = token_of_header_parts (split auth_header b' ')

-- The account that is posted for a token; an error, and a response without its body, give none.
unfoldable pub account_of_token : TokenAuthorization → String → Option Account
account_of_token api token = elim (api.build_request token) [
  | err e ↦ none
  | ok request ↦ elim (api.post request) [ err e ↦ none | ok found ↦ found ]
]

abbrev identity : Option Account → String × String
identity none = ("", "")
identity (some account) = (account.id, account.username)

-- The account's id and user name, both empty where there is none.
unfoldable pub authenticate : TokenAuthorization → String → String × String
unfolding token_from_header account_of_token
authenticate api auth_header =
    let token = token_from_header auth_header in
    if not (str_eq token "") then identity (account_of_token api token) else ("", "")

-- The values that the next handler finds in the request's context, the latest first.
unfoldable pub authenticate_token :
    TokenAuthorization → String → List (String × String) → List (String × String)
unfolding authenticate
authenticate_token api auth_header context =
    let (id, username) = authenticate api auth_header in
    (context_account_username_key, username) ∷ (context_account_id_key, id) ∷ context
