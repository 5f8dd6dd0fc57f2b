-- ===== src/Domain/Tags.antt =====
-- Go's map[string]string, the tags of an event.
use promptmeter.Prelude.{
  ◌≡◌, refl, Option, none, some, List, [], ◌∷◌, arith, Str, str_eq, str_eq_iff, if◌then◌else◌,
}

-- A map that is not nil, in the order in which `range` visits it.
abbrev pub TagMap : Type 0
TagMap = List (Str × Str)

-- m[k] = v
unfoldable pub put_tag : Str → Str → TagMap → TagMap
put_tag k v [] = (k, v) ∷ []
put_tag k v ((j, w) ∷ m) = if str_eq j k then (k, v) ∷ m else (j, w) ∷ put_tag k v m

-- v, ok := m[k]
unfoldable pub find_tag : Str → TagMap → Option Str
find_tag k [] = none
find_tag k ((j, w) ∷ m) = if str_eq j k then some w else find_tag k m

pub find_tag-put_tag :
    (k j v : Str) (m : TagMap)
    → find_tag j (put_tag k v m) ≡ (if str_eq k j then some v else find_tag j m)
unfolding find_tag put_tag
find_tag-put_tag k j v [] = refl
find_tag-put_tag k j v ((i, w) ∷ m) =
    ground (arith, str_eq_iff k j, str_eq_iff i k, str_eq_iff i j, find_tag-put_tag k j v m)
