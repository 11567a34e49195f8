-- ===== src/HttpLogging/TransportLaws.antt =====
-- What the logging round tripper changes and what it logs.
use ocm_service_common.Common.{
  ◌⊎◌, ℕ, zero, suc, ◌≤◌, String, Bool, true, false, Option, none, some, List, [], ◌∷◌, ◌≡◌, ◌↔◌,
  refl, arith, ◌<◌, ◌++◌, ap, All, ltb, ltb→lt, length, Any, inl, inr, Bool-cases,
}
use ocm_service_common.Common.Result.{Result, ok, err}
use ocm_service_common.Common.Text.{has_prefix}
use ocm_service_common.HttpLogging.Transport.{
  read_failed, got_back, sending, Transport, Request, Response, Bytes, Body, Logged, whole, trimmed,
  Line, starts_with_any, should_log, take, payload_to_log, read_body, round_trip, after_answer,
  max_payload_length_to_log,
}

-- A path starts with one of the prefixes.
abbrev pub StartsWithAny : String → List String → Type 0
StartsWithAny path prefixes = Any (λ prefix. has_prefix path prefix ≡ true) prefixes

starts_with_any_sound :
    (path : String) (prefixes : List String)
    → starts_with_any path prefixes ≡ true
    → StartsWithAny path prefixes
unfolding starts_with_any
starts_with_any_sound path [] h = cc
starts_with_any_sound path (p ∷ ps) h = elim (Bool-cases (has_prefix path p)) [
  | inl starts ↦ Any.here starts
  | inr other ↦ Any.there (starts_with_any_sound path ps (ground arith))
]

starts_with_any_complete :
    (path : String) {prefixes : List String}
    → StartsWithAny path prefixes
    → starts_with_any path prefixes ≡ true
unfolding starts_with_any
starts_with_any_complete path (Any.here starts) = ground arith
starts_with_any_complete path (Any.there i) = ground (arith, starts_with_any_complete path i)

-- A body is logged exactly for a path that starts with one of the prefixes and with none of the
-- exclusions.
should_log-StartsWithAny_iff :
    (path : String) (prefixes exclusions : List String)
    → (should_log path prefixes exclusions ≡ true)
      ↔ (StartsWithAny path prefixes × ¬ (StartsWithAny path exclusions))
unfolding should_log
should_log-StartsWithAny_iff path prefixes exclusions =
    elim (Bool-cases (starts_with_any path exclusions)) [
      | inl excluded ↦ (
        λ h. ground (arith, excluded),
        λ h. absurd (h.1 (starts_with_any_sound path exclusions excluded)),
      )
      | inr kept ↦ (
        λ h. (
          starts_with_any_sound path prefixes (ground arith),
          λ e. ground (arith, kept, starts_with_any_complete path e),
        ),
        λ h. ground (arith, kept, starts_with_any_complete path h.0),
      )
    ]

-- A body that is not nil can be read.
abbrev pub IsReadable : Body → Type 0
IsReadable none = Unit
IsReadable (some (ok payload)) = Unit
IsReadable (some (err e)) = ⊥

read_body-IsReadable :
    (log : Bool) (body : Body)
    → IsReadable body
    → (p : Option Bytes) × (read_body log body ≡ ok (p, body))
unfolding read_body
read_body-IsReadable false body h = (none, refl)
read_body-IsReadable true none h = (none, refl)
read_body-IsReadable true (some (ok payload)) h = (some payload, refl)
read_body-IsReadable true (some (err e)) h = absurd h

after_answer_transparent :
    (t : Transport) (wrapped : Request → Result String Response) (request : Request) (line : Line)
    (answer : Result String Response)
    → ((response : Response) → answer ≡ ok response → IsReadable response.body)
    → ((after_answer t wrapped request line answer).sent ≡ some request)
      × ((after_answer t wrapped request line answer).answer ≡ answer)
unfolding after_answer
after_answer_transparent t wrapped request line (err e) readable = (refl, refl)
after_answer_transparent t wrapped request line (ok response) readable =
    let (p, e) =
      read_body-IsReadable
        (should_log request.path t.log_response_body_prefixes t.log_response_body_prefix_exclusions)
        response.body (readable response refl) in
    rw (after_answer, e) (refl, refl)

-- Logging is transparent: where the bodies can be read, the wrapped round tripper gets the request
-- as it was given, and the caller gets its answer, whatever the prefixes are.
pub round_trip_transparent :
    (t : Transport) (wrapped : Request → Result String Response) (request : Request)
    → IsReadable request.body
    → ((response : Response) → wrapped request ≡ ok response → IsReadable response.body)
    → ((round_trip t wrapped request).sent ≡ some request)
      × ((round_trip t wrapped request).answer ≡ wrapped request)
unfolding round_trip after_answer
round_trip_transparent t wrapped request readable answers =
    let (p, e) =
      read_body-IsReadable
        (should_log request.path t.log_request_body_prefixes t.log_request_body_prefix_exclusions)
        request.body readable in
    rw (round_trip, e)
      (after_answer_transparent t wrapped request (sending request.method request.url p)
        (wrapped request) answers)

length-take : (n : ℕ) (p : Bytes) → length (take n p) ≤ n
unfolding take
length-take zero p = omega arith
length-take (suc n) [] = omega arith
length-take (suc n) (b ∷ p) = omega (arith, length-take n p)

-- The bytes of a payload that a line has.
abbrev pub logged_bytes : Logged → Bytes
logged_bytes (whole p) = p
logged_bytes (trimmed p n) = p

take-beginning :
    (n : ℕ) (p : Bytes)
    → (length p ≤ n) ⊎ ((rest : Bytes) × (p ≡ take n p ++ rest) × (length (take n p) ≡ n))
unfolding take
take-beginning zero p = inr (p, refl, omega arith)
take-beginning (suc n) [] = inl (omega arith)
take-beginning (suc n) (b ∷ p) = elim (take-beginning n p) [
  | inl short ↦ inl (omega arith)
  | inr (rest, e, full) ↦ inr (rest, ap (λ q. b ∷ q) e, omega arith)
]

-- What is logged of a payload is the whole of it, of at most 10000 bytes, or the 10000 bytes that it
-- begins with and its length.
abbrev pub IsLogged : Bytes → Logged → Type 0
IsLogged payload (whole p) = (p ≡ payload) × (length payload ≤ 10000)
IsLogged payload (trimmed p n) =
    (length p ≡ 10000) × (n ≡ length payload) × (10000 < n) × (rest : Bytes) × (payload ≡ p ++ rest)

payload_to_log-IsLogged : (payload : Bytes) → IsLogged payload (payload_to_log payload)
unfolding payload_to_log
payload_to_log-IsLogged payload =
    elim (Bool-cases (ltb max_payload_length_to_log (length payload))) [
      | inl long ↦ rw long (trimmed_lem (ltb→lt max_payload_length_to_log (length payload) long))
      | inr short ↦ rw short (refl, ground (arith, short))
    ]
  where
    trimmed_lem :
        max_payload_length_to_log < length payload
        → IsLogged payload (trimmed (take max_payload_length_to_log payload) (length payload))
    trimmed_lem long = elim (take-beginning max_payload_length_to_log payload) [
      | inl short ↦ absurd (omega arith)
      | inr (rest, e, full) ↦ (full, refl, long, rest, e)
    ]

-- A line about a response with a payload has the payload of the body that the answer has.
abbrev pub IsLine : Result String Response → Line → Type 0
IsLine answer (got_back status method url op none) = Unit
IsLine answer (got_back status method url op (some l)) =
    (response : Response) × (payload : Bytes) × (answer ≡ ok response)
    × (response.body ≡ some (ok payload))
    × IsLogged payload l
IsLine answer (sending method url payload) = Unit
IsLine answer read_failed = Unit

-- What reading a body gives: an error, or a body with the payload that it has, if one is read.
read_body-cases :
    (log : Bool) (body : Body)
    → ((e : String) × (read_body log body ≡ err e))
      ⊎ ((left : Body) × ((read_body log body ≡ ok (none, left))
            ⊎ ((payload : Bytes) × (body ≡ some (ok payload))
                × (read_body log body ≡ ok (some payload, left)))))
unfolding read_body
read_body-cases false body = inr (body, inl refl)
read_body-cases true none = inr (none, inl refl)
read_body-cases true (some (err e)) = inl (e, refl)
read_body-cases true (some (ok payload)) = inr (some (ok payload), inr (payload, refl, refl))

module _ (t : Transport) (wrapped : Request → Result String Response) where
  after_answer-IsLine :
      (request : Request) (method url : String) (payload : Option Bytes)
      (answer : Result String Response)
      → All
          (IsLine answer)
          (after_answer t wrapped request (sending method url payload) answer).lines
  unfolding after_answer
  after_answer-IsLine request method url payload (err e) = (tt, tt)
  after_answer-IsLine request method url payload (ok response) =
      elim (read_body-cases
        (should_log request.path t.log_response_body_prefixes t.log_response_body_prefix_exclusions)
        response.body) [
          | inl (e, failed) ↦ rw (All, after_answer, failed) (tt, (tt, tt))
          | inr (left, inl unread) ↦ rw (All, after_answer, unread) (tt, (tt, tt))
          | inr (left, inr (p, there, read)) ↦
              rw (All, after_answer, read)
                (tt, ((response, p, refl, there, payload_to_log-IsLogged p), tt))
        ]

  after_answer-sent :
      (request : Request) (line : Line) (answer : Result String Response)
      → (after_answer t wrapped request line answer).sent ≡ some request
  unfolding after_answer
  after_answer-sent request line (err e) = refl
  after_answer-sent request line (ok response) =
      elim (read_body-cases
        (should_log request.path t.log_response_body_prefixes t.log_response_body_prefix_exclusions)
        response.body) [
          | inl (e, failed) ↦ rw (after_answer, failed) refl
          | inr (left, inl unread) ↦ rw (after_answer, unread) refl
          | inr (left, inr (p, there, read)) ↦ rw (after_answer, read) refl
        ]

  -- Of the payload of a response a line has at most 10000 bytes: the whole of it, or the 10000 bytes
  -- that it begins with and its length where it is longer. It is the payload of the body with which
  -- the wrapped round tripper answered the request that was sent; if none was sent, the line of the
  -- error is the only one. This says nothing of the payload of a request.
  pub round_trip-IsLine :
      (request : Request)
      → (((round_trip t wrapped request).sent ≡ none)
          × ((round_trip t wrapped request).lines ≡ read_failed ∷ []))
        ⊎ ((sent : Request) × ((round_trip t wrapped request).sent ≡ some sent)
            × All (IsLine (wrapped sent)) (round_trip t wrapped request).lines)
  unfolding round_trip
  round_trip-IsLine request =
      elim (read_body-cases
        (should_log request.path t.log_request_body_prefixes t.log_request_body_prefix_exclusions)
        request.body) [
          | inl (e, failed) ↦ rw (round_trip, failed) (inl (refl, refl))
          | inr (left, inl unread) ↦ rw (round_trip, unread) (inr (answered left none))
          | inr (left, inr (p, there, read)) ↦ rw (round_trip, read) (inr (answered left (some p)))
        ]
    where
      answered :
          (left : Body) (p : Option Bytes)
          → (sent : Request) × ((after_answer t wrapped
                (record request { body = left })
                (sending request.method request.url p)
                (wrapped (record request { body = left }))).sent
              ≡ some sent)
            × All
                (IsLine (wrapped sent))
                (after_answer t wrapped
                  (record request { body = left })
                  (sending request.method request.url p)
                  (wrapped (record request { body = left }))).lines
      answered left p = (
        record request { body = left },
        after_answer-sent (record request { body = left }) _
            (wrapped (record request { body = left })),
        after_answer-IsLine (record request { body = left }) request.method request.url p
            (wrapped (record request { body = left })),
      )

-- Where the body of a request is to be logged and cannot be read, the request is not sent and the
-- error of reading it is returned.
round_trip_unreadable :
    (t : Transport) (wrapped : Request → Result String Response) (request : Request) (e : String)
    → request.body ≡ some (err e)
    → should_log request.path t.log_request_body_prefixes t.log_request_body_prefix_exclusions
      ≡ true
    → ((round_trip t wrapped request).sent ≡ none) × ((round_trip t wrapped request).answer ≡ err e)
unfolding round_trip read_body
round_trip_unreadable t wrapped request e broken logged =
    (ground (arith, broken, logged), ground (arith, broken, logged))
