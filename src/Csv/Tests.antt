-- ===== src/Csv/Tests.antt =====
-- The theorems of the parser at concrete rows.
use ocm_service_common.Common.{String, true, false, List, [], ◌∷◌, ◌≡◌, ◌↔◌, refl}
use ocm_service_common.Common.Int.{pos}
use ocm_service_common.Common.Result.{returns}
use ocm_service_common.Csv.Parse.{
  resource_of, parse_bool, Row, optional_number, parse_cloud_resource, CloudResource,
}
use ocm_service_common.Csv.ParseLaws.{
  parse_cloud_resource-IsInt32, parse_cloud_resource-IsParsed_iff, IsInt32, IsParsed,
}

abbrev columns : String → List String
columns cpu =
    "m5.xlarge" ∷ "standard.4" ∷ "m5.xlarge - General purpose" ∷ "aws" ∷ cpu ∷ "17179869184" ∷ "16"
    ∷ "general_purpose" ∷ "General purpose" ∷ "xlarge" ∷ "false" ∷ "compute.node" ∷ "true" ∷ []

abbrev columns_row : String → Row
columns_row cpu = record {
  id = "m5.xlarge";
  gen_name = "standard.4";
  name_pretty = "m5.xlarge - General purpose";
  cloud = "aws";
  cpu_raw = cpu;
  memory_raw = "17179869184";
  memory_pretty = "16";
  category = "general_purpose";
  category_pretty = "General purpose";
  size = "xlarge";
  ccs_only = "false";
  res_type = "compute.node";
  act = "true";
}

abbrev resource : CloudResource
resource = resource_of (columns_row "4") (pos 4) (pos 17179869184) true false

parse_cloud_resource-IsParsed_iff_example :
    (parse_cloud_resource (columns "4") ≡ returns resource) ↔ IsParsed (columns "4") resource
parse_cloud_resource-IsParsed_iff_example = parse_cloud_resource-IsParsed_iff (columns "4") resource

-- More cores than 32 bits hold.
parse_cloud_resource-IsInt32_example :
    (r : CloudResource) × (parse_cloud_resource (columns "4294967300") ≡ returns r)
    × IsInt32 r.cpu_cores
    × (r.cpu_cores ≡ pos 4294967300 ↔ IsInt32 (pos 4294967300))
unfolding optional_number parse_bool
parse_cloud_resource-IsInt32_example =
    parse_cloud_resource-IsInt32 (columns "4294967300") (columns_row "4294967300") (pos 4294967300)
      (pos 17179869184) true false (refl, refl, refl, refl, refl)
