-- ===== src/Grafana/Sort.antt =====
-- pkg/grafana/generate_grafana.go: the order of the paths of a document.
use Prim.Native.Char.{code}
use Prim.Native.String as Text
use ocm_service_common.Common.{◌==◌, ltb, String, Bool, true, false, List, [], ◌∷◌, if◌then◌else◌}

-- The order of Go's texts: by their bytes, which UTF-8 makes that of the characters' numbers.
unfoldable pub text_le : String → String → Bool
text_le Text.[] t = true
text_le (Text.◌∷◌ c s) Text.[] = false
text_le (Text.◌∷◌ c s) (Text.◌∷◌ d t) =
    let rest = text_le s t in
    if ltb (code c) (code d) then true else if code c == code d then rest else false

unfoldable pub insert_path : String → List String → List String
unfolding text_le
insert_path p [] = p ∷ []
insert_path p (q ∷ qs) = if text_le p q then p ∷ q ∷ qs else q ∷ insert_path p qs

-- `sort.StringSlice(paths).Sort()`.
unfoldable pub sort_paths : List String → List String
unfolding insert_path
sort_paths [] = []
sort_paths (p ∷ ps) = insert_path p (sort_paths ps)
