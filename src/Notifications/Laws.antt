-- ===== src/Notifications/Laws.antt =====
-- When sending a notification gives no error.
use ocm_service_common.Common.{
  Bool-cases, ℕ, String, Option, none, some, ◌≡◌, ◌≢◌, ◌↔◌, inl, inr, refl, arith, ◌==◌, str_eq,
  eq_iff,
}
use ocm_service_common.Common.Result.{Result, ok, err}
use ocm_service_common.Notifications.Client.{
  after_response, post, ClientConfiguration, send, judge, status_ok, Answer, Response,
  NotificationPayload,
}

module _ {Bytes Request : Type 0} (marshal : NotificationPayload → Result String Bytes)
    (new_request : String → Bytes → Result String Request)
    (send_request : Request → Result String (Response Bytes)) (status_text : ℕ → String)
    (unmarshal : Bytes → Result String Answer) where
  -- The body is not JSON, or its result is not an error.
  abbrev pub TellsNoError : Result String Answer → Type 0
  TellsNoError (err e) = Unit
  TellsNoError (ok answer) = answer.result ≢ "error"

  abbrev pub IsRead : Result String Bytes → Type 0
  IsRead (err e) = ⊥
  IsRead (ok bytes) = TellsNoError (unmarshal bytes)

  -- The request was sent and answered with the status 200, and the body was read and tells no error.
  abbrev pub IsAccepted : Result String (Response Bytes) → Type 0
  IsAccepted (err e) = ⊥
  IsAccepted (ok response) = (response.status_code ≡ status_ok) × IsRead response.body

  judge-TellsNoError_iff :
      (r : Result String Answer)
      → (judge marshal new_request send_request status_text unmarshal r ≡ none) ↔ TellsNoError r
  unfolding judge
  judge-TellsNoError_iff (err e) = (λ h. tt, λ h. refl)
  judge-TellsNoError_iff (ok answer) = elim (Bool-cases (str_eq answer.result "error")) [
    | inl e ↦ rw e (λ h. cc, λ h. absurd (h ((eq_iff answer.result "error").0 e)))
    | inr e ↦ rw e (λ h same. cc (e, (eq_iff answer.result "error").1 same), λ h. refl)
  ]

  body-IsRead_iff :
      (body : Result String Bytes)
      → ((elim body as (λ x. Option String) [
        | err e ↦ some e
        | ok bytes ↦ judge marshal new_request send_request status_text unmarshal (unmarshal bytes)
      ])
          ≡ none)
        ↔ IsRead body
  body-IsRead_iff (err e) = (λ h. cc, λ h. absurd h)
  body-IsRead_iff (ok bytes) = judge-TellsNoError_iff (unmarshal bytes)

  after_response-IsAccepted_iff :
      (response : Response Bytes)
      → (after_response marshal new_request send_request status_text unmarshal response ≡ none)
        ↔ IsAccepted (ok response)
  unfolding after_response
  after_response-IsAccepted_iff response =
      let (to, from) = body-IsRead_iff response.body in
      elim (Bool-cases (response.status_code == status_ok)) [
        | inl e ↦ rw e (λ h. (ground arith, to h), λ h. from h.1)
        | inr e ↦ rw e (λ h. cc, λ h. absurd (ground (arith, h.0)))
      ]

  posted-IsAccepted_iff :
      (r : Result String (Response Bytes))
      → ((elim r as (λ x. Option String) [
        | err e ↦ some e
        | ok response ↦
            after_response marshal new_request send_request status_text unmarshal response
      ])
          ≡ none)
        ↔ IsAccepted r
  posted-IsAccepted_iff (err e) = (λ h. cc, λ h. absurd h)
  posted-IsAccepted_iff (ok response) = after_response-IsAccepted_iff response

  -- Sending gives no error exactly if the payload could be encoded and posted, the service answered with
  -- the status 200, and the body could be read and does not tell an error; a body that is not JSON tells
  -- none.
  pub send-IsAccepted_iff :
      (config : ClientConfiguration) (payload : NotificationPayload)
      → (send marshal new_request send_request status_text unmarshal config payload ≡ none)
        ↔ IsAccepted (post marshal new_request send_request status_text unmarshal config payload)
  unfolding send
  send-IsAccepted_iff config payload =
      posted-IsAccepted_iff
        (post marshal new_request send_request status_text unmarshal config payload)
