-- ===== src/HttpLogging/WrapperLaws.antt =====
-- What the counting body gives to its reader and to the log.
use ocm_service_common.Common.{
  ℕ, ◌+◌, String, Option, List, [], ◌∷◌, ◌++◌, ◌≡◌, refl, ap, ◌∙◌, arith, length, length-append,
}
use ocm_service_common.HttpLogging.Transport.{Bytes}
use ocm_service_common.HttpLogging.Wrapper.{
  ResponseBody, received_bytes, read_and_close, read_all_next,
}

module _ {B : Type 0} (read_next : ℕ → B → (Bytes × Option String) × B)
    (close_next : B → Option String) where
  -- However the body of a response is read, the caller gets the bytes of the wrapped body, and the
  -- line that closing it writes has their number.
  read_and_close_counts :
      (sizes : List ℕ) (body : ResponseBody B)
      → ((read_and_close read_next close_next sizes body).0
          ≡ read_all_next read_next sizes body.next)
        × ((read_and_close read_next close_next sizes body).1
            ≡ received_bytes
                (body.length + length (read_all_next read_next sizes body.next))
                body.method
                body.url)
  unfolding read_and_close read_all_next
  read_and_close_counts [] body =
      (refl, ap (λ n. received_bytes n body.method body.url) (omega arith))
  read_and_close_counts (size ∷ sizes) body =
      let got = (read_next size body.next).0.0 in
      let after = (read_next size body.next).1 in
      let (same, line) =
        read_and_close_counts sizes
          (record body { length = body.length + length got; next = after }) in
      (
        ap (λ rest. got ++ rest) same,
        line
            ∙ ap (λ n. received_bytes n body.method body.url)
                (omega (arith, length-append got (read_all_next read_next sizes after))),
      )
