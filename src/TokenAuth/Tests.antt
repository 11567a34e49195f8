-- ===== src/TokenAuth/Tests.antt =====
-- The access token of concrete headers.
use ocm_service_common.Common.{String, some, [], lookup, ◌≡◌, ◌≢◌, ◌↔◌, refl, eq_iff, arith}
use ocm_service_common.Common.Result.{ok}
use ocm_service_common.TokenAuth.{
  authenticate_token, token_from_header, authenticate, TokenAuthorization,
}
use ocm_service_common.TokenAuth.Laws.{
  authenticate_token_sound, token_from_header-Carries_iff, Carries, Answers,
}

abbrev ams : TokenAuthorization
ams = record {
  build_request = λ t. ok t;
  post = λ r. ok (some (record { id = "a1"; username = "ann" }));
}

token_runs : Unit {0}
unfolding token_from_header authenticate authenticate_token
token_runs = tt

found_token : token_from_header "AccessToken c1:t1" ≡ "t1"
unfolding token_runs
found_token = refl

bearer : authenticate ams "Bearer c1:t1" ≡ ("", "")
unfolding token_runs
bearer = refl

t1_ne : ◌≢◌ {A = String} "t1" ""
t1_ne = ground (arith, eq_iff "t1" "")

a1_ne : ◌≢◌ {A = String} "a1" ""
a1_ne = ground (arith, eq_iff "a1" "")

token_from_header-Carries_iff_example :
    (token_from_header "AccessToken c1:t1" ≡ "t1") ↔ Carries "AccessToken c1:t1" "t1"
token_from_header-Carries_iff_example = token_from_header-Carries_iff "AccessToken c1:t1" "t1" t1_ne

known_id : lookup "accountID" (authenticate_token ams "AccessToken c1:t1" []) ≡ some "a1"
unfolding token_runs lookup
known_id = refl

authenticate_token_sound_example :
    (token : String) × (username : String) × Carries "AccessToken c1:t1" token
    × Answers ams token (record { id = "a1"; username = username })
    × (lookup "accountUsername" (authenticate_token ams "AccessToken c1:t1" []) ≡ some username)
authenticate_token_sound_example =
    authenticate_token_sound ams "AccessToken c1:t1" "a1" [] a1_ne known_id
