-- ===== src/Jira/TransportLaws.antt =====
-- What the token transport sends, and what it leaves alone.
use ocm_service_common.Common.{
  ℕ, zero, suc, String, Option, some, [], ◌∷◌, ◌++◌, length, insert, lookup, lookup-insert, ◌≡◌,
  refl, ◌<◌, arith, str_eq, if◌then◌else◌, sym, none,
}
use ocm_service_common.Common.Text.{concat}
use ocm_service_common.Jira.Transport.{
  transport, authorization, set_header, clone_request, round_trip, Header, Request, write_header,
  header_at, Store,
}

header_at-new : (store : Store) (h : Header) → header_at (store ++ h ∷ []) (length store) ≡ h
unfolding header_at
header_at-new [] h = refl
header_at-new (x ∷ store) h = header_at-new store h

header_at-write_new :
    (store : Store) (h new : Header)
    → header_at (write_header (store ++ h ∷ []) (length store) new) (length store) ≡ new
unfolding header_at write_header
header_at-write_new [] h new = refl
header_at-write_new (x ∷ store) h new = header_at-write_new store h new

header_at-write_old :
    (store : Store) (h new : Header) (n : ℕ)
    → n < length store
    → header_at (write_header (store ++ h ∷ []) (length store) new) n ≡ header_at store n
unfolding header_at write_header
header_at-write_old [] h new n k = ground arith
header_at-write_old (x ∷ store) h new zero k = refl
header_at-write_old (x ∷ store) h new (suc n) k = header_at-write_old store h new n (ground arith)

-- The transport that is called: the wrapped one, or the default one where there is none.
abbrev pub Uses :
    {Response : Type 0}
    → (Store → Request → Response)
    → Option (Store → Request → Response)
    → (Store → Request → Response)
    → Type 0
Uses default_transport none send = send ≡ default_transport
Uses default_transport (some wrapped) send = send ≡ wrapped

transport-Uses :
    {Response : Type 0} (default_transport : Store → Request → Response)
    (wrapped : Option (Store → Request → Response)) {send : Store → Request → Response}
    → Uses default_transport wrapped send
    → transport wrapped default_transport ≡ send
unfolding transport
transport-Uses default_transport none u = sym u
transport-Uses default_transport (some t) u = sym u

-- What is sent for the request `r`: the same request, but that its map holds the token, while every
-- map that was there before is as it was.
pub record IsAuthorized (token : String) (store : Store) (r : Request) (sent_store : Store)
    (sent : Request) : Type 0 where
  pub method : sent.method ≡ r.method
  pub url : sent.url ≡ r.url
  pub header :
      (key : String)
      → lookup key (header_at sent_store sent.header) ≡ (
          if str_eq "Authorization" key
          then some (concat ("Bearer " ∷ token ∷ []) ∷ [])
          else lookup key (header_at store r.header))
  pub untouched : (n : ℕ) → n < length store → header_at sent_store n ≡ header_at store n

module _ {Response : Type 0} (default_transport : Store → Request → Response) where
  -- The transport gets a request with the method and the URL of the one that was given, which has the
  -- token in its Authorization header and otherwise the values of the headers that were given; its
  -- response is the answer. The map of the given request, and every other map, stays as it was.
  pub round_trip_leaves :
      (wrapped : Option (Store → Request → Response)) (send : Store → Request → Response)
      (token : String) (store : Store) (r : Request)
      → Uses default_transport wrapped send
      → (sent_store : Store) × (sent : Request) × IsAuthorized token store r sent_store sent
        × (round_trip default_transport wrapped token store r ≡ (sent_store, send sent_store sent))
  unfolding round_trip clone_request set_header
  round_trip_leaves wrapped send token store r u = (
    (round_trip default_transport wrapped token store r).0,
    (clone_request store r).1,
    record {
      method = refl;
      url = refl;
      header = λ key. rw (header_at-new store (header_at store r.header)) (
          rw
            (header_at-write_new store (header_at store r.header)
              (insert "Authorization" (authorization token ∷ []) (header_at store r.header)))
            (lookup-insert "Authorization" key (authorization token ∷ [])
              (header_at store r.header)));
      untouched = λ n k. header_at-write_old store (header_at store r.header) _ n k;
    },
    rw (transport-Uses default_transport wrapped u) refl,
  )
