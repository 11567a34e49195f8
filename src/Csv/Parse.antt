-- ===== src/Csv/Parse.antt =====
-- pkg/csv/csv_parse.go and pkg/api/cloud_resource_types.go: `ParseCloudResource`, with `strconv.Atoi` on
-- 64 bits and `strconv.ParseBool`. What the conversions do not accept makes the parser panic.
use Prim.Native.Char.{code}
use Prim.Native.String as Text
use ocm_service_common.Common.{
  ℕ, zero, suc, ◌+◌, ◌*◌, ◌-◌, ◌^◌, String, Bool, true, false, ◌&&◌, ◌||◌, Option, none, some, List,
  [], ◌∷◌, leb, ltb, ◌==◌, str_eq, if◌then◌else◌,
}
use ocm_service_common.Common.Int.{ℤ, pos, negsuc}
use ocm_service_common.Common.Result.{Run, returns, panics}
use ocm_service_common.Segment.Types.{int32}

-- The digits of a number, after the number that those before them make.
unfoldable pub digits : ℕ → String → Option ℕ
digits n Text.[] = some n
digits n (Text.◌∷◌ c s) =
    let rest = digits (n * 10 + (code c - 48)) s in
    if leb 48 (code c) && leb (code c) 57 then rest else none

-- One digit or more.
unfoldable pub unsigned : String → Option ℕ
unfolding digits
unsigned Text.[] = none
unsigned (Text.◌∷◌ c s) = digits 0 (Text.◌∷◌ c s)

-- -n.
abbrev pub negative : ℕ → ℤ
negative zero = pos 0
negative (suc n) = negsuc n

abbrev pub below : ℕ → (ℕ → ℤ) → Option ℕ → Option ℤ
below limit sign none = none
below limit sign (some n) = if ltb n limit then some (sign n) else none

unfoldable pub atoi : String → Option ℤ
unfolding unsigned
atoi Text.[] = none
atoi (Text.◌∷◌ c s) =
    if code c == b'-'
    then below (2 ^ 63 + 1) negative (unsigned s)
    else if code c == b'+'
    then below (2 ^ 63) pos (unsigned s)
    else below (2 ^ 63) pos (unsigned (Text.◌∷◌ c s))

abbrev pub one_of : String → List String → Bool
one_of s [] = false
one_of s (t ∷ ts) = str_eq s t || one_of s ts

unfoldable pub parse_bool : String → Option Bool
parse_bool s =
    if one_of s ("1" ∷ "t" ∷ "T" ∷ "TRUE" ∷ "true" ∷ "True" ∷ [])
    then some true
    else if one_of s ("0" ∷ "f" ∷ "F" ∷ "FALSE" ∷ "false" ∷ "False" ∷ [])
    then some false
    else none

-- The struct without the times of its Meta, which stay zero.
pub record CloudResource : Type 0 where
  pub id : String
  pub name_pretty : String
  pub generic_name : String
  pub cloud_provider : String
  pub resource_type : String
  pub category : String
  pub category_pretty : String
  pub cpu_cores : ℤ
  pub memory : ℤ
  pub memory_pretty : String
  pub size_pretty : String
  pub ccs_only : Bool
  pub active : Bool

-- A number that may be left empty; `none` is a panic.
unfoldable pub optional_number : String → Option ℤ
unfolding atoi
optional_number raw = if str_eq raw "" then some (pos 0) else atoi raw

-- The columns by their index; a row that is too short panics.
pub record Row : Type 0 where
  pub id : String
  pub gen_name : String
  pub name_pretty : String
  pub cloud : String
  pub cpu_raw : String
  pub memory_raw : String
  pub memory_pretty : String
  pub category : String
  pub category_pretty : String
  pub size : String
  pub ccs_only : String
  pub res_type : String
  pub act : String

abbrev pub row_of : List String → Option Row
row_of
      (id ∷ gen_name ∷ name_pretty ∷ cloud ∷ cpu_raw ∷ memory_raw ∷ memory_pretty ∷ category
        ∷ category_pretty ∷ size ∷ ccs_only ∷ res_type ∷ act ∷ more) =
    some record {
      id = id;
      gen_name = gen_name;
      name_pretty = name_pretty;
      cloud = cloud;
      cpu_raw = cpu_raw;
      memory_raw = memory_raw;
      memory_pretty = memory_pretty;
      category = category;
      category_pretty = category_pretty;
      size = size;
      ccs_only = ccs_only;
      res_type = res_type;
      act = act;
    }
row_of _ = none

-- The resource of the row, for the converted values.
abbrev pub resource_of : Row → ℤ → ℤ → Bool → Bool → CloudResource
resource_of row cpu memory active ccs = record {
  id = row.id;
  name_pretty = row.name_pretty;
  generic_name = row.gen_name;
  cloud_provider = row.cloud;
  resource_type = row.res_type;
  category = row.category;
  category_pretty = row.category_pretty;
  cpu_cores = int32 cpu;
  memory = memory;
  memory_pretty = row.memory_pretty;
  size_pretty = row.size;
  ccs_only = ccs;
  active = active;
}

infixl 5 ◌>>=◌
abbrev pub ◌>>=◌ : {A : Type 0} → Option A → (A → Run CloudResource) → Run CloudResource
none >>= f = panics
some a >>= f = f a

unfoldable pub parse_cloud_resource : List String → Run CloudResource
unfolding optional_number parse_bool int32
parse_cloud_resource csv = do
  row ← row_of csv
  cpu ← optional_number row.cpu_raw
  memory ← optional_number row.memory_raw
  active ← parse_bool row.act
  ccs ← parse_bool row.ccs_only
  returns (resource_of row cpu memory active ccs)
