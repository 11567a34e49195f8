-- ===== src/Jira/Transport.antt =====
-- pkg/client/jira/transport.go and custom_field.go. A header is a Go map, which requests share by
-- reference, so the maps stand in a store and a request holds the address of its own; the values of a
-- header are texts. The wrapped transport is a parameter, as is the default one.
use ocm_service_common.Common.{
  ℕ, zero, suc, String, Option, none, some, List, [], ◌∷◌, ◌++◌, length, insert,
}
use ocm_service_common.Common.Text.{concat}

abbrev pub Header : Type 0
Header = List (String × List String)

abbrev pub Store : Type 0
Store = List Header

-- The map at an address; an address that is not in use holds no entries.
unfoldable pub header_at : Store → ℕ → Header
header_at [] n = []
header_at (h ∷ store) zero = h
header_at (h ∷ store) (suc n) = header_at store n

unfoldable pub write_header : Store → ℕ → Header → Store
write_header [] n h = []
write_header (old ∷ store) zero h = h ∷ store
write_header (old ∷ store) (suc n) h = old ∷ write_header store n h

pub record Request : Type 0 where
  pub method : String
  pub url : String
  pub header : ℕ

-- `cloneRequest`: a copy of the struct, with a new map.
unfoldable pub clone_request : Store → Request → Store × Request
unfolding header_at
clone_request store r = (store ++ header_at store r.header ∷ [], record r { header = length store })

-- `req.Header.Set(key, value)`.
unfoldable pub set_header : Store → Request → String → String → Store
unfolding header_at write_header insert
set_header store r key value =
    write_header store r.header (insert key (value ∷ []) (header_at store r.header))

abbrev pub authorization : String → String
authorization token = concat ("Bearer " ∷ token ∷ [])

-- The transport of the struct, or the default one.
unfoldable pub transport : {T : Type 0} → Option T → T → T
transport none default_transport = default_transport
transport (some t) default_transport = t

module _ {Response : Type 0} (default_transport : Store → Request → Response) where
  -- `RoundTrip`: the store that the wrapped transport is called with, and its response.
  unfoldable pub round_trip :
      Option (Store → Request → Response) → String → Store → Request → Store × Response
  unfolding clone_request set_header transport
  round_trip wrapped token store r =
      let (cloned_store, r2) = clone_request store r in
      let set_store = set_header cloned_store r2 "Authorization" (authorization token) in
      (set_store, transport wrapped default_transport set_store r2)

pub record CustomFieldType : Type 0 where
  pub value : String

pub record CustomFieldTypeBuilder : Type 0 where
  pub value : String

abbrev pub new_custom_field_type : CustomFieldTypeBuilder
new_custom_field_type = record { value = "" }

abbrev pub with_value : String → CustomFieldTypeBuilder → CustomFieldTypeBuilder
with_value value c = record c { value = value }

abbrev pub build : CustomFieldTypeBuilder → CustomFieldType
build c = record { value = c.value }
