-- ===== src/HttpLogging/Transport.antt =====
-- pkg/logging/transport.go. A payload is a list of bytes; a body that is not nil is what
-- `io.ReadAll` gives for it. The wrapped round tripper is a parameter. A log line is kept by its
-- arguments.
use ocm_service_common.Common.{
  ℕ, zero, suc, String, Bool, true, false, Option, none, some, List, [], ◌∷◌, ltb, length, str_eq,
  if◌then◌else◌,
}
use ocm_service_common.Common.Result.{Result, ok, err}
use ocm_service_common.Common.Text.{has_prefix}

abbrev pub Bytes : Type 0
Bytes = List ℕ

abbrev pub Body : Type 0
Body = Option (Result String Bytes)

pub record Transport : Type 0 where
  pub log_request_body_prefixes : List String
  pub log_response_body_prefixes : List String
  pub log_request_body_prefix_exclusions : List String
  pub log_response_body_prefix_exclusions : List String

-- The request: its method, its URL as a text, the path of the URL, and the body.
pub record Request : Type 0 where
  pub method : String
  pub url : String
  pub path : String
  pub body : Body

-- The response: its status, its header X-Operation-ID, and the body.
pub record Response : Type 0 where
  pub status_code : ℕ
  pub op_id : String
  pub body : Body

-- What the line has of a payload.
pub data Logged : Type 0 where
  whole : Bytes → Logged
  trimmed : Bytes → (length : ℕ) → Logged

pub data Line : Type 0 where
  sending : String → String → Option Bytes → Line
  got_back : ℕ → String → String → Option String → Option Logged → Line
  read_failed : Line

-- One of the two loops of `shouldLog`.
unfoldable pub starts_with_any : String → List String → Bool
unfolding has_prefix
starts_with_any path [] = false
starts_with_any path (prefix ∷ prefixes) =
    if has_prefix path prefix then true else starts_with_any path prefixes

unfoldable pub should_log : String → List String → List String → Bool
unfolding starts_with_any
should_log path include_prefixes exclude_prefixes =
    if starts_with_any path exclude_prefixes then false else starts_with_any path include_prefixes

abbrev pub max_payload_length_to_log : ℕ
max_payload_length_to_log = 10000

-- The slice `p[0:n]`, within the length of `p`.
unfoldable pub take : ℕ → Bytes → Bytes
take zero p = []
take (suc n) [] = []
take (suc n) (b ∷ p) = b ∷ take n p

unfoldable pub payload_to_log : Bytes → Logged
unfolding take
payload_to_log payload =
    if ltb max_payload_length_to_log (length payload)
    then trimmed (take max_payload_length_to_log payload) (length payload)
    else whole payload

-- The body that is left after it was read and logged, or the error of reading it.
unfoldable pub read_body : Bool → Body → Result String (Option Bytes × Body)
read_body false body = ok (none, body)
read_body true none = ok (none, none)
read_body true (some (err e)) = err e
read_body true (some (ok payload)) = ok (some payload, some (ok payload))

-- The outcome of a round trip: the lines, the request that was sent if one was, and the answer.
pub record Trip : Type 0 where
  pub lines : List Line
  pub sent : Option Request
  pub answer : Result String Response

abbrev pub logged : Option Bytes → Option Logged
logged none = none
logged (some payload) = some (payload_to_log payload)

abbrev operation : String → Option String
operation op_id = if str_eq op_id "" then none else some op_id

module _ (t : Transport) (wrapped : Request → Result String Response) where
  -- What follows the answer of the wrapped round tripper.
  unfoldable pub after_answer : Request → Line → Result String Response → Trip
  unfolding read_body should_log payload_to_log
  after_answer request line (err e) = record {
    lines = line ∷ [];
    sent = some request;
    answer = err e;
  }
  after_answer request line (ok response) =
      elim (read_body
        (should_log request.path t.log_response_body_prefixes t.log_response_body_prefix_exclusions)
        response.body) [
          | err e ↦ record { lines = line ∷ read_failed ∷ []; sent = some request; answer = err e }
          | ok (payload, body) ↦ record {
            lines =
                line
                ∷ got_back response.status_code request.method request.url
                    (operation response.op_id) (logged payload)
                ∷ [];
            sent = some request;
            answer = ok (record response { body = body });
          }
        ]

  unfoldable pub round_trip : Request → Trip
  unfolding after_answer
  round_trip request =
      elim (read_body
        (should_log request.path t.log_request_body_prefixes t.log_request_body_prefix_exclusions)
        request.body) [
          | err e ↦ record { lines = read_failed ∷ []; sent = none; answer = err e }
          | ok (payload, body) ↦
              let sent = record request { body = body } in
              after_answer sent (sending request.method request.url payload) (wrapped sent)
        ]
