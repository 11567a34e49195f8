-- ===== src/Segment/Types.antt =====
-- pkg/client/segment/types.go, and the configuration of config.go. A pointer is an `Option`; a time
-- is its distance from the zero time, which `IsZero` tests.
use ocm_service_common.Common.{
  ℕ, String, Bool, Option, none, some, ◌%◌, ◌-◌, ◌^◌, ltb, if◌then◌else◌,
}
use ocm_service_common.Common.Int.{ℤ, pos, negsuc}

abbrev pub Time : Type 0
Time = ℕ

pub record AuthPayload : Type 0 where
  pub client_id : String
  pub rhit_user_id : String
  pub locale : String
  pub org_id : String
  pub rhit_account_number : String

pub record Resource : Type 0 where
  pub id : String
  pub created_at : Time
  pub provenance : String
  pub status : String
  pub managed : Bool

pub record ApiSubscription : Type 0 where
  pub created_at : Time
  pub provenance : Option String
  pub status : String
  pub managed : Bool
  pub external_cluster_id : String
  pub cluster_billing_model : Option String
  pub support_level : Option String
  pub service_level : Option String
  pub usage : Option String
  pub system_units : Option String
  pub cpu_total : Option ℤ
  pub socket_total : Option ℤ

pub record Subscription : Type 0 where
  pub billing_model : String
  pub support_level : String
  pub service_level : String
  pub usage : String
  pub system_units : String
  pub cpu_total : ℤ
  pub socket_total : ℤ

pub record TrackParams : Type 0 where
  pub web_user_id : String
  pub event : String
  pub ocm_resource_type : String
  pub initiator : String
  pub resource : Resource
  pub subscription : Subscription

pub record Account : Type 0 where
  pub rhit_web_user_id : Option String
  pub email : String
  pub first_name : String
  pub last_name : String
  pub org_ebs_account_id : Option String
  pub org_external_id : String

-- The two fields of the configuration that the service reads.
pub record ClientConfiguration : Type 0 where
  pub key : String
  pub version : String

-- `FromPtr` at the type string.
unfoldable pub from_ptr : Option String → String
from_ptr none = ""
from_ptr (some v) = v

-- The conversion `int32(n)`, which keeps the low 32 bits in two's complement.
unfoldable pub int32 : ℤ → ℤ
int32 (pos n) =
    if ltb (n % 2 ^ 32) (2 ^ 31) then pos (n % 2 ^ 32) else negsuc (2 ^ 32 - 1 - n % 2 ^ 32)
int32 (negsuc n) =
    if ltb (n % 2 ^ 32) (2 ^ 31) then negsuc (n % 2 ^ 32) else pos (2 ^ 32 - 1 - n % 2 ^ 32)

unfoldable pub nil_to_zero_int32 : Option ℤ → ℤ
unfolding int32
nil_to_zero_int32 none = pos 0
nil_to_zero_int32 (some a) = int32 a
