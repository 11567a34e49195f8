-- ===== src/TokenAuth/Laws.antt =====
-- The token of a header: exactly the headers of one form hold one, and an account comes only from
-- what AMS answers for it.
use ocm_service_common.Common.{
  Option-cases, some, refl, ◌↔◌, inr, eq_iff, arith, All, inl, subst, str_eq, ◌∙◌, ap, Bool-cases,
  sym, ◌≢◌, List, String, [], ◌∷◌, ◌≡◌, lookup,
}
use ocm_service_common.Common.Result.{ok, Result-cases}
use ocm_service_common.Common.Text.{
  NoChar-append_iff, split-NoChar, split_whole, join, split_part, join-split, cons_text, split,
  NoChar, concat,
}
use Prim.Native.Char.{code, Char}
use ocm_service_common.TokenAuth.{
  account_of_token, TokenAuthorization, Account, authenticate, authenticate_token, access_token,
  token_of_credentials, token_from_header, token_of_header_parts,
}

-- The header is `AccessToken user:token`, with no further space or colon.
pub record Carries (header token : String) : Type 0 where
  pub user : String
  pub form : header ≡ concat ("AccessToken" ∷ " " ∷ user ∷ ":" ∷ token ∷ [])
  pub user_plain : NoChar b' ' user × NoChar b':' user
  pub token_plain : NoChar b' ' token × NoChar b':' token

credentials_sound :
    (parts : List String) (token : String)
    → token ≢ ""
    → token_of_credentials parts ≡ token
    → (user : String) × (parts ≡ user ∷ token ∷ [])
credentials_sound (user ∷ t ∷ []) token some_token h = (user, ap (λ (x : String). user ∷ x ∷ []) h)
credentials_sound _ token some_token h = absurd (some_token (sym h))

header_sound :
    (parts : List String) (token : String)
    → token ≢ ""
    → token_of_header_parts parts ≡ token
    → (credentials user : String) × (parts ≡ access_token ∷ credentials ∷ [])
      × (split credentials b':' ≡ user ∷ token ∷ [])
unfolding token_of_header_parts
header_sound (scheme ∷ credentials ∷ []) token some_token h =
    elim (Bool-cases (str_eq scheme access_token)) [
      | inl right ↦
          let (user, e) =
            credentials_sound (split credentials b':') token some_token (ground arith) in
          (
            credentials,
            user,
            ap (λ (x : String). x ∷ credentials ∷ []) ((eq_iff scheme access_token).0 right),
            e,
          )
      | inr wrong ↦ absurd (ground arith)
    ]
header_sound _ token some_token h = absurd (some_token (sym h))

-- A text that splits into two parts is the parts around the separator.
two_parts :
    (s p q : String) (d : Char)
    → split s (code d) ≡ p ∷ q ∷ []
    → (s ≡ concat (p ∷ (String.◌∷◌ d "") ∷ q ∷ [])) × NoChar (code d) p × NoChar (code d) q
two_parts s p q d e = (
  sym (join-split s d) ∙ ap (λ (l : List String). join l (String.◌∷◌ d "")) e ∙ unfold join in refl,
  (subst (All (NoChar (code d))) e (split-NoChar s (code d))).0,
  (subst (All (NoChar (code d))) e (split-NoChar s (code d))).1.0,
)

split_two :
    (p q : String) (d : Char)
    → NoChar (code d) p
    → NoChar (code d) q
    → split (concat (p ∷ (String.◌∷◌ d "") ∷ q ∷ [])) (code d) ≡ p ∷ q ∷ []
split_two p q d hp hq = rw (cons_text, split_part p q d hp, split_whole q (code d) hq)

Carries-sound :
    (header token : String) → token ≢ "" → token_from_header header ≡ token → Carries header token
unfolding token_from_header
Carries-sound header token some_token h =
    let (credentials, user, two, pair) = header_sound (split header b' ') token some_token h in
    let (form, _, no_space) = two_parts header access_token credentials " " two in
    let (form', no_colon, no_colon') = two_parts credentials user token ":" pair in
    let plain : NoChar b' ' (concat (user ∷ ":" ∷ token ∷ [])) =
      subst (NoChar b' ') form' no_space in
    let (user_space, rest) = (NoChar-append_iff user (concat (":" ∷ token ∷ [])) b' ').0 plain in
    let (_, token_space) = (NoChar-append_iff ":" token b' ').0 rest in
    record {
      user = user;
      form = form ∙ ap (λ x. concat (access_token ∷ " " ∷ x ∷ [])) form';
      user_plain = (user_space, no_colon);
      token_plain = (token_space, no_colon');
    }

Carries-complete : (header token : String) → Carries header token → token_from_header header ≡ token
unfolding token_from_header token_of_header_parts
Carries-complete header token c =
    let credentials = concat (c.user ∷ ":" ∷ token ∷ []) in
    let colon : NoChar b' ' (concat (":" ∷ token ∷ [])) =
      (NoChar-append_iff ":" token b' ').1 ((cc, tt), c.token_plain.0) in
    let plain : NoChar b' ' credentials =
      (NoChar-append_iff c.user (concat (":" ∷ token ∷ [])) b' ').1 (c.user_plain.0, colon) in
    let two : split header b' ' ≡ access_token ∷ credentials ∷ [] =
      ap (λ (h : String). split h b' ') c.form
      ∙ split_two access_token credentials " " scheme_plain plain in
    let pair : split credentials b':' ≡ c.user ∷ token ∷ [] =
      split_two c.user token ":" c.user_plain.1 c.token_plain.1 in
    rw two (ground (arith, pair))
  where
    scheme_plain : NoChar b' ' access_token
    scheme_plain = omega arith

-- A header holds a token exactly where it is `AccessToken user:token`.
pub token_from_header-Carries_iff :
    (header token : String) → token ≢ "" → (token_from_header header ≡ token) ↔ Carries header token
token_from_header-Carries_iff header token some_token =
    (Carries-sound header token some_token, Carries-complete header token)

authenticate_sound :
    (api : TokenAuthorization) (header id username : String)
    → id ≢ ""
    → authenticate api header ≡ (id, username)
    → (token : String) × Carries header token
      × (account_of_token api token ≡ some (record { id = id; username = username }))
unfolding authenticate
authenticate_sound api header id username known h =
    elim (Bool-cases (str_eq (token_from_header header) "")) [
      | inl no_token ↦ absurd (ground arith)
      | inr some_token ↦ elim (Option-cases (account_of_token api (token_from_header header))) [
        | inl missing ↦ absurd (ground arith)
        | inr (account, found) ↦ (
          token_from_header header,
          Carries-sound header (token_from_header header)
              (λ e. cc (some_token, (eq_iff (token_from_header header) "").1 e)) refl,
          ground arith,
        )
      ]
    ]

-- AMS answers the request that is built for a token with an account.
abbrev pub Answers : TokenAuthorization → String → Account → Type 0
Answers api token account =
    (request : String) × (api.build_request token ≡ ok request)
    × (api.post request ≡ ok (some account))

account_of_token-Answers :
    (api : TokenAuthorization) (token : String) (account : Account)
    → account_of_token api token ≡ some account
    → Answers api token account
unfolding account_of_token
account_of_token-Answers api token account h = elim (Result-cases (api.build_request token)) [
  | inr (e, fails) ↦ ground (arith, fails)
  | inl (request, built) ↦ elim (Result-cases (api.post request)) [
    | inr (e, fails) ↦ ground (arith, built, fails)
    | inl (found, posted) ↦ (request, built, ground (arith, built, posted))
  ]
]

-- An account id that the next handler finds in the request's context, if it is not empty, is the id of
-- an account that AMS answered for the token of the header, and the user name that it finds there is
-- the name of the same account.
pub authenticate_token_sound :
    (api : TokenAuthorization) (header id : String) (context : List (String × String))
    → id ≢ ""
    → lookup "accountID" (authenticate_token api header context) ≡ some id
    → (token : String) × (username : String) × Carries header token
      × Answers api token (record { id = id; username = username })
      × (lookup "accountUsername" (authenticate_token api header context) ≡ some username)
unfolding authenticate_token lookup
authenticate_token_sound api header id context known h =
    let same : (authenticate api header).0 ≡ id = ground arith in
    let name = (authenticate api header).1 in
    let (token, carries, found) =
      authenticate_sound api header id name known (ap (λ (x : String). (x, name)) same) in
    (token, name, carries, account_of_token-Answers api token _ found, ground arith)
