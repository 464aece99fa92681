-- ===== src/Corefile/Zones.antt =====
-- The zone of the shared entrances (cmd/sys-event/watchers/corefile.go): the first label of a user's
-- zone is replaced.
use Prim.Native.Char.{code, Char}
use tapr.Base.{String, ◌<>◌, Option, none, some, List, [], ◌∷◌, if◌then◌else◌, ◌==◌, nat_eq}

-- `strings.Split(zone, ".")`: never empty.
abbrev push_char : Char → List String → List String
push_char c [] = String.◌∷◌ c "" ∷ []
push_char c (p ∷ ps) = String.◌∷◌ c p ∷ ps

unfoldable pub split_dot : String → List String
split_dot String.[] = "" ∷ []
split_dot (String.◌∷◌ c s) =
    let rest = split_dot s in if code c == b'.' then "" ∷ rest else push_char c rest

-- `strings.Join(tokens, ".")`
unfoldable pub join_dot : List String → String
join_dot [] = ""
join_dot (p ∷ []) = p
join_dot (p ∷ q ∷ ps) = p <> "." <> join_dot (q ∷ ps)

-- `none` for a zone of fewer than two labels, the empty one included.
unfoldable pub shared_zone_of : String → Option String
unfolding split_dot join_dot
shared_zone_of zone = elim (split_dot zone) [
  | [] ↦ none
  | p ∷ ps ↦ elim ps [ [] ↦ none | q ∷ qs ↦ some (join_dot ("shared" ∷ q ∷ qs)) ]
]
