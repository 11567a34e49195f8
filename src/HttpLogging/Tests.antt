-- ===== src/HttpLogging/Tests.antt =====
-- The logging round trippers at concrete requests, responses and readers.
use ocm_service_common.Common.{
  ap, subst, ℕ, String, true, Option, none, some, [], ◌∷◌, ◌≡◌, ◌⊎◌, refl, All,
}
use ocm_service_common.Common.Result.{Result, ok, err}
use ocm_service_common.Common.Text.{has_prefix, contains, strip_prefix}
use ocm_service_common.HttpLogging.Transport.{
  Transport, Request, Response, Bytes, Body, should_log, starts_with_any, round_trip, read_failed,
}
use ocm_service_common.HttpLogging.TransportLaws.{
  IsReadable, round_trip_transparent, round_trip-IsLine, IsLine,
}
use ocm_service_common.HttpLogging.Wrapper.{ResponseBody, is_skipped, text_after}

abbrev everything : Transport
everything = record {
  log_request_body_prefixes = "" ∷ [];
  log_response_body_prefixes = "" ∷ [];
  log_request_body_prefix_exclusions = [];
  log_response_body_prefix_exclusions = [];
}

abbrev post : Request
post = record { method = "POST"; url = "http://h/a"; path = "/a"; body = some (ok (1 ∷ 2 ∷ [])) }

abbrev broken_post : Request
broken_post = record {
  method = "POST";
  url = "http://h/a";
  path = "/a";
  body = some (err "closed");
}

abbrev created : Response
created = record { status_code = 201; op_id = "x"; body = none }

abbrev answers : Request → Result String Response
answers request = ok created

abbrev body_of : Result String Response → Body
body_of (ok response) = response.body
body_of (err e) = none

answered : (response : Response) → answers post ≡ ok response → IsReadable response.body
answered response h = subst IsReadable (ap body_of h) tt

round_trip_transparent_example :
    ((round_trip everything answers post).sent ≡ some post)
    × ((round_trip everything answers post).answer ≡ answers post)
round_trip_transparent_example = round_trip_transparent everything answers post tt answered

broken_logged : should_log "/a" ("" ∷ []) [] ≡ true
unfolding should_log starts_with_any has_prefix
broken_logged = refl

abbrev listed : Request → Result String Response
listed request = ok (record created { body = some (ok (7 ∷ 8 ∷ [])) })

round_trip-IsLine_example :
    (((round_trip everything listed post).sent ≡ none)
      × ((round_trip everything listed post).lines ≡ read_failed ∷ []))
    ⊎ ((sent : Request) × ((round_trip everything listed post).sent ≡ some sent)
        × All (IsLine (listed sent)) (round_trip everything listed post).lines)
round_trip-IsLine_example = round_trip-IsLine everything listed post

-- A reader that gives one byte a call, as long as it has one.
abbrev read_one : ℕ → Bytes → (Bytes × Option String) × Bytes
read_one size [] = (([], some "EOF"), [])
read_one size (b ∷ bs) = ((b ∷ [], none), bs)

abbrev close_fine : Bytes → Option String
close_fine bs = none

abbrev body : ResponseBody Bytes
body = record { method = "GET"; url = "http://h/a"; length = 0; next = 7 ∷ 8 ∷ [] }

leadership_skipped : is_skipped "http://h/namespaces/ns-leadership/x" ≡ true
unfolding is_skipped text_after strip_prefix contains has_prefix
leadership_skipped = refl
