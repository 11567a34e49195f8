-- ===== src/Metrics/Tests.antt =====
-- The theorem on path templates at a concrete template, and the labels of a request that no route
-- matches.
use ocm_service_common.Common.{some, ◌≡◌, refl}
use ocm_service_common.Common.Text.{split}
use ocm_service_common.Metrics.{reduce_path, unmatched, first_part}

unmatched_path : reduce_path (some unmatched) "//clusters/c1" ≡ ("/clusters", "")
unfolding reduce_path first_part split
unmatched_path = refl
