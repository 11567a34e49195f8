-- ===== src/Csv/ParseLaws.antt =====
-- When a row is parsed, and what becomes of its numbers.
use ocm_service_common.Common.{
  [], ◌∷◌, ◌∙◌, subst, ap, ltb→lt, ltb, lt→ltb, Bool-cases, ◌%◌, String, Bool, Option, none, some,
  List, ◌≡◌, ◌↔◌, refl, ◌<◌, ◌^◌, arith, inl, inr,
}
use ocm_service_common.Common.Int.{ℤ, pos, negsuc}
use ocm_service_common.Common.Result.{Run, returns, panics}
use ocm_service_common.Segment.Types.{int32}
use ocm_service_common.Csv.Spelling.{
  IsNumber, IsFlag, optional_number-IsNumber, parse_bool→IsFlag, IsFlag→parse_bool,
}
use ocm_service_common.Csv.Parse.{
  ◌>>=◌, resource_of, parse_cloud_resource, CloudResource, parse_bool, optional_number, row_of, Row,
}

-- The range of `int32`.
abbrev pub IsInt32 : ℤ → Type 0
IsInt32 (pos n) = n < 2 ^ 31
IsInt32 (negsuc n) = n < 2 ^ 31

int32-IsInt32 : (n : ℤ) → IsInt32 (int32 n)
unfolding int32
int32-IsInt32 (pos n) = elim (Bool-cases (ltb (n % 2 ^ 32) (2 ^ 31))) [
  | inl e ↦ rw e (ltb→lt (n % 2 ^ 32) (2 ^ 31) e)
  | inr e ↦ rw e (ground arith)
]
int32-IsInt32 (negsuc n) = elim (Bool-cases (ltb (n % 2 ^ 32) (2 ^ 31))) [
  | inl e ↦ rw e (ltb→lt (n % 2 ^ 32) (2 ^ 31) e)
  | inr e ↦ rw e (ground arith)
]

int32-same : (n : ℤ) → IsInt32 n → int32 n ≡ n
unfolding int32
int32-same (pos n) h =
    let small : n % 2 ^ 32 ≡ n = ground arith in
    let fits = lt→ltb n (2 ^ 31) h in rw (small, fits) refl
int32-same (negsuc n) h =
    let small : n % 2 ^ 32 ≡ n = ground arith in
    let fits = lt→ltb n (2 ^ 31) h in rw (small, fits) refl

-- The row has its columns and each of the four values converts.
abbrev pub Converts : List String → Row → ℤ → ℤ → Bool → Bool → Type 0
Converts csv row cpu memory active ccs =
    (row_of csv ≡ some row)
    × (optional_number row.cpu_raw ≡ some cpu)
    × (optional_number row.memory_raw ≡ some memory)
    × (parse_bool row.act ≡ some active)
    × (parse_bool row.ccs_only ≡ some ccs)

abbrev value_of : CloudResource → Run CloudResource → CloudResource
value_of r panics = r
value_of r (returns a) = a

bind_returns :
    {A : Type 0} (o : Option A) (f : A → Run CloudResource) (r : CloudResource)
    → (o >>= f) ≡ returns r
    → (a : A) × (o ≡ some a) × (f a ≡ returns r)
bind_returns none f r h = cc
bind_returns (some a) f r h = (a, refl, h)

Converts→parse_cloud_resource :
    (csv : List String) (row : Row) (cpu memory : ℤ) (active ccs : Bool)
    → Converts csv row cpu memory active ccs
    → parse_cloud_resource csv ≡ returns (resource_of row cpu memory active ccs)
unfolding parse_cloud_resource
Converts→parse_cloud_resource csv row cpu memory active ccs (a, b, c, d, e) =
    rw a (rw (b, c, d, e) refl)

-- The resource that the row and its converted values make.
abbrev Parses : List String → CloudResource → Type 0
Parses csv r =
    (row : Row) × (cpu : ℤ) × (memory : ℤ) × (active : Bool) × (ccs : Bool) × Converts csv row cpu
      memory active ccs
    × (resource_of row cpu memory active ccs ≡ r)

parse_cloud_resource→Parses :
    (csv : List String) (r : CloudResource) → parse_cloud_resource csv ≡ returns r → Parses csv r
unfolding parse_cloud_resource
parse_cloud_resource→Parses csv r h =
    let (row, a, h1) = bind_returns (row_of csv) _ r h in
    let (cpu, b, h2) = bind_returns (optional_number row.cpu_raw) _ r h1 in
    let (memory, c, h3) = bind_returns (optional_number row.memory_raw) _ r h2 in
    let (active, d, h4) = bind_returns (parse_bool row.act) _ r h3 in
    let (ccs, e, h5) = bind_returns (parse_bool row.ccs_only) _ r h4 in
    (row, cpu, memory, active, ccs, (a, b, c, d, e), ap (value_of r) h5)

-- The columns of a row in their order.
abbrev columns_of : Row → List String → List String
columns_of row more =
    row.id ∷ row.gen_name ∷ row.name_pretty ∷ row.cloud ∷ row.cpu_raw ∷ row.memory_raw
    ∷ row.memory_pretty ∷ row.category ∷ row.category_pretty ∷ row.size ∷ row.ccs_only
    ∷ row.res_type ∷ row.act ∷ more

-- A row has its columns, with or without more of them.
row_of-columns :
    (csv : List String) (row : Row)
    → row_of csv ≡ some row
    → (more : List String) × (csv
        ≡ row.id ∷ row.gen_name ∷ row.name_pretty ∷ row.cloud ∷ row.cpu_raw ∷ row.memory_raw
          ∷ row.memory_pretty ∷ row.category ∷ row.category_pretty ∷ row.size ∷ row.ccs_only
          ∷ row.res_type ∷ row.act ∷ more)
row_of-columns
      (id ∷ gen_name ∷ name_pretty ∷ cloud ∷ cpu_raw ∷ memory_raw ∷ memory_pretty ∷ category
        ∷ category_pretty ∷ size ∷ ccs_only ∷ res_type ∷ act ∷ more)
      row h =
    (more, ap (λ (r : Row). columns_of r more) (cc h))
row_of-columns [] row h = cc h
row_of-columns (id ∷ []) row h = cc h
row_of-columns (id ∷ gen_name ∷ []) row h = cc h
row_of-columns (id ∷ gen_name ∷ name_pretty ∷ []) row h = cc h
row_of-columns (id ∷ gen_name ∷ name_pretty ∷ cloud ∷ []) row h = cc h
row_of-columns (id ∷ gen_name ∷ name_pretty ∷ cloud ∷ cpu_raw ∷ []) row h = cc h
row_of-columns (id ∷ gen_name ∷ name_pretty ∷ cloud ∷ cpu_raw ∷ memory_raw ∷ []) row h = cc h
row_of-columns (id ∷ gen_name ∷ name_pretty ∷ cloud ∷ cpu_raw ∷ memory_raw ∷ memory_pretty ∷ []) row
      h =
    cc h
row_of-columns
      (id ∷ gen_name ∷ name_pretty ∷ cloud ∷ cpu_raw ∷ memory_raw ∷ memory_pretty ∷ category ∷ [])
      row h =
    cc h
row_of-columns
      (id ∷ gen_name ∷ name_pretty ∷ cloud ∷ cpu_raw ∷ memory_raw ∷ memory_pretty ∷ category
        ∷ category_pretty ∷ [])
      row h =
    cc h
row_of-columns
      (id ∷ gen_name ∷ name_pretty ∷ cloud ∷ cpu_raw ∷ memory_raw ∷ memory_pretty ∷ category
        ∷ category_pretty ∷ size ∷ [])
      row h =
    cc h
row_of-columns
      (id ∷ gen_name ∷ name_pretty ∷ cloud ∷ cpu_raw ∷ memory_raw ∷ memory_pretty ∷ category
        ∷ category_pretty ∷ size ∷ ccs_only ∷ [])
      row h =
    cc h
row_of-columns
      (id ∷ gen_name ∷ name_pretty ∷ cloud ∷ cpu_raw ∷ memory_raw ∷ memory_pretty ∷ category
        ∷ category_pretty ∷ size ∷ ccs_only ∷ res_type ∷ [])
      row h =
    cc h

-- The resource of a row: the columns are its texts, in their order, and the spelled numbers and flags
-- its numbers and flags; the number of cores goes through int32.
pub record IsParsed (csv : List String) (r : CloudResource) : Type 0 where
  pub cpu_raw : String
  pub memory_raw : String
  pub ccs_raw : String
  pub active_raw : String
  pub more : List String
  pub columns :
      csv
      ≡ r.id ∷ r.generic_name ∷ r.name_pretty ∷ r.cloud_provider ∷ cpu_raw ∷ memory_raw
        ∷ r.memory_pretty ∷ r.category ∷ r.category_pretty ∷ r.size_pretty ∷ ccs_raw
        ∷ r.resource_type ∷ active_raw ∷ more
  pub cpu : ℤ
  pub cpu_number : IsNumber cpu_raw cpu
  pub cores : int32 cpu ≡ r.cpu_cores
  pub memory_number : IsNumber memory_raw r.memory
  pub active_flag : IsFlag active_raw r.active
  pub ccs_flag : IsFlag ccs_raw r.ccs_only

Parses→IsParsed : (csv : List String) (r : CloudResource) → Parses csv r → IsParsed csv r
Parses→IsParsed csv r (row, cpu, memory, active, ccs, (a, b, c, d, e), made) =
    let (more, columns) = row_of-columns csv row a in
    subst (IsParsed csv) made (record {
      cpu_raw = row.cpu_raw;
      memory_raw = row.memory_raw;
      ccs_raw = row.ccs_only;
      active_raw = row.act;
      more = more;
      columns = columns;
      cpu = cpu;
      cpu_number = (optional_number-IsNumber row.cpu_raw cpu).0 b;
      cores = refl;
      memory_number = (optional_number-IsNumber row.memory_raw memory).0 c;
      active_flag = parse_bool→IsFlag row.act active d;
      ccs_flag = parse_bool→IsFlag row.ccs_only ccs e;
    })

-- The row that the resource was made of.
abbrev row_from : (csv : List String) (r : CloudResource) → IsParsed csv r → Row
row_from csv r p = record {
  id = r.id;
  gen_name = r.generic_name;
  name_pretty = r.name_pretty;
  cloud = r.cloud_provider;
  cpu_raw = p.cpu_raw;
  memory_raw = p.memory_raw;
  memory_pretty = r.memory_pretty;
  category = r.category;
  category_pretty = r.category_pretty;
  size = r.size_pretty;
  ccs_only = p.ccs_raw;
  res_type = r.resource_type;
  act = p.active_raw;
}

IsParsed→Parses : (csv : List String) (r : CloudResource) → IsParsed csv r → Parses csv r
IsParsed→Parses csv r p = (
  row_from csv r p,
  p.cpu,
  r.memory,
  r.active,
  r.ccs_only,
  (
    ap row_of p.columns,
    (optional_number-IsNumber p.cpu_raw p.cpu).1 p.cpu_number,
    (optional_number-IsNumber p.memory_raw r.memory).1 p.memory_number,
    IsFlag→parse_bool p.active_raw r.active p.active_flag,
    IsFlag→parse_bool p.ccs_raw r.ccs_only p.ccs_flag,
  ),
  ap (λ (n : ℤ). record r { cpu_cores = n }) p.cores,
)

-- A row is parsed to a resource exactly if it has thirteen columns or more, the texts of the resource
-- are the columns at their places, each of the two numbers is empty, for zero, or an integer of 64 bits,
-- each of the two flags is spelled in one of the six ways in which Go spells it, and the memory and the
-- flags of the resource are those values, and its number of cores the int32 of that value.
pub parse_cloud_resource-IsParsed_iff :
    (csv : List String) (r : CloudResource)
    → (parse_cloud_resource csv ≡ returns r) ↔ IsParsed csv r
parse_cloud_resource-IsParsed_iff csv r = (
  λ h. Parses→IsParsed csv r (parse_cloud_resource→Parses csv r h),
  λ p. made (IsParsed→Parses csv r p),
)
  where
    made : Parses csv r → parse_cloud_resource csv ≡ returns r
    made (row, cpu, memory, active, ccs, converts, e) =
        Converts→parse_cloud_resource csv row cpu memory active ccs converts ∙ ap returns e

-- The number of cores of a parsed resource is within the range of int32, and it is the number of the row
-- exactly if that number is within the range.
pub parse_cloud_resource-IsInt32 :
    (csv : List String) (row : Row) (cpu memory : ℤ) (active ccs : Bool)
    → Converts csv row cpu memory active ccs
    → (r : CloudResource) × (parse_cloud_resource csv ≡ returns r)
      × IsInt32 r.cpu_cores
      × (r.cpu_cores ≡ cpu ↔ IsInt32 cpu)
parse_cloud_resource-IsInt32 csv row cpu memory active ccs h = (
  resource_of row cpu memory active ccs,
  Converts→parse_cloud_resource csv row cpu memory active ccs h,
  int32-IsInt32 cpu,
  (λ e. subst IsInt32 e (int32-IsInt32 cpu), int32-same cpu),
)
