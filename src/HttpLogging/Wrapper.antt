-- ===== src/HttpLogging/Wrapper.antt =====
-- pkg/logging/transport_wrapper.go: the builder, the round tripper, and the body that counts what is
-- read from it. The wrapped round tripper and the readers are parameters; the identifier that
-- `opid.WithOpId` puts into the context and the durations are left out of the lines.
use ocm_service_common.Common.{
  ℕ, ◌+◌, String, Bool, false, Option, none, some, List, [], ◌∷◌, length, ◌++◌, if◌then◌else◌,
}
use ocm_service_common.Common.Result.{Result, ok, err}
use ocm_service_common.Common.Text.{contains, strip_prefix}
use ocm_service_common.HttpLogging.Transport.{Bytes}

-- `Build`: a logger that is nil is refused.
unfoldable pub build : {L : Type 0} → Option L → Result String L
build none = err "logger is mandatory"
build (some logger) = ok logger

-- The text after the first place where `part` stands.
unfoldable pub text_after : String → String → Option String
unfolding strip_prefix
text_after part String.[] = strip_prefix String.[] part
text_after part (String.◌∷◌ c s) = elim (strip_prefix (String.◌∷◌ c s) part) [
  | some rest ↦ some rest
  | none ↦ text_after part s
]

-- `skipRE.MatchString(url)`, for a text without line breaks.
unfoldable pub is_skipped : String → Bool
unfolding text_after contains
is_skipped url = elim (text_after "/namespaces/" url) [
  | none ↦ false
  | some rest ↦ contains rest "-leadership/"
]

pub data Line : Type 0 where
  sending : String → String → Line
  received_response : ℕ → String → String → Line
  received_bytes : ℕ → String → String → Line

-- The body of the response, over a reader of the wrapped body: what it has counted, and the reader.
pub record ResponseBody (B : Type 0) : Type 0 where
  pub method : String
  pub url : String
  pub length : ℕ
  pub next : B

-- A response with its status and its body; the body is counted or passed on as it is.
pub data Answer (B : Type 0) : Type 0 where
  counted : ℕ → ResponseBody B → Answer B
  passed_on : ℕ → B → Answer B

-- What follows the answer of the wrapped round tripper.
unfoldable pub wrap_answer :
    {B : Type 0} → String → String → Result String (ℕ × B) → List Line × Result String (Answer B)
wrap_answer method url (err e) = (sending method url ∷ [], err e)
wrap_answer method url (ok (status, body)) = (
  sending method url ∷ received_response status method url ∷ [],
  ok (counted status (record { method = method; url = url; length = 0; next = body })),
)

abbrev pass_on : {B : Type 0} → Result String (ℕ × B) → Result String (Answer B)
pass_on (err e) = err e
pass_on (ok (status, body)) = ok (passed_on status body)

unfoldable pub wrapped_round_trip :
    {B : Type 0}
    → (String → String → Result String (ℕ × B))
    → String
    → String
    → List Line × Result String (Answer B)
unfolding is_skipped wrap_answer
wrapped_round_trip next method url =
    if is_skipped url
    then ([], pass_on (next method url))
    else wrap_answer method url (next method url)

-- A caller that reads the wrapped body itself, into buffers of the given sizes.
unfoldable pub read_all_next :
    {B : Type 0} → (ℕ → B → (Bytes × Option String) × B) → List ℕ → B → Bytes
read_all_next read_next [] next = []
read_all_next read_next (size ∷ sizes) next =
    let (got, after) = read_next size next in got.0 ++ read_all_next read_next sizes after

-- A read gives bytes and possibly an error, and changes the reader.
module _ {B : Type 0} (read_next : ℕ → B → (Bytes × Option String) × B)
    (close_next : B → Option String) where
  unfoldable pub read : ℕ → ResponseBody B → (Bytes × Option String) × ResponseBody B
  read size body =
      let (got, next) = read_next size body.next in
      (got, record body { length = body.length + length got.0; next = next })

  unfoldable pub close : ResponseBody B → Line × Option String
  close body = (received_bytes body.length body.method body.url, close_next body.next)

  -- A caller that reads into buffers of the given sizes and closes: the bytes that it gets, and the
  -- line.
  unfoldable pub read_and_close : List ℕ → ResponseBody B → Bytes × Line
  unfolding read close
  read_and_close [] body = ([], (close body).0)
  read_and_close (size ∷ sizes) body =
      let (got, after) = read size body in
      let (rest, line) = read_and_close sizes after in (got.0 ++ rest, line)
