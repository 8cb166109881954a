-- ===== src/Skills/Paths.antt =====
-- crates/nexal-agent/src/fs/skills.rs: paths, as texts that are split at their slashes.
use Prim.Native.Char.{Char, code}
use Prim.Native.String.{String, [], ◌∷◌}
use mathlib.Core.List.{List}
use nexal.Prelude.{nat_eq, ◌===◌, str_append, if◌then◌else◌}

abbrev put : Char → List String → List String
put ch List.[] = List.◌∷◌ (ch ∷ "") List.[]
put ch (List.◌∷◌ part parts) = List.◌∷◌ (ch ∷ part) parts

-- `path.split('/')`
unfoldable pub split : String → List String
split [] = List.◌∷◌ "" List.[]
split (ch ∷ s) = let parts = split s in if code ch === b'/' then List.◌∷◌ "" parts else put ch parts

-- `parts.join("/")`
unfoldable pub join : List String → String
join List.[] = ""
join (List.◌∷◌ part List.[]) = part
join (List.◌∷◌ part (List.◌∷◌ next parts)) =
    str_append part (str_append "/" (join (List.◌∷◌ next parts)))

-- `split('/').next_back()`
unfoldable pub last_of : String → List String → String
last_of d List.[] = d
last_of d (List.◌∷◌ part parts) = last_of part parts

unfoldable pub base_name : String → String
unfolding split last_of
base_name path = last_of path (split path)
