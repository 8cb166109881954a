-- ===== src/Skills/Service.antt =====
-- crates/nexal-gateway/src/skills.rs: the gateway's `skills/read`, with the components of a path as
-- `std::path` gives them on Unix. The read of the file itself is an argument.
pub mod Confined
use nexal.Prelude.{
  ℕ, String, string_eq, ◌===◌, Bool, true, false, ◌&&◌, ◌||◌, Option, none, some, List, [], ◌∷◌,
  ◌++◌, if◌then◌else◌, str_append,
}
use nexal.Skills.Paths.{split}

pub data Component : Type 0 where
  root_dir cur_dir parent_dir : Component
  normal : String → Component

pub data Result (A : Type 0) : Type 0 where
  ok : A → Result A
  err : String → Result A

-- Behind the first part: empty parts and `.` are left out.
unfoldable pub later : List String → List Component
later [] = []
later (part ∷ parts) =
    let rest = later parts in
    if part === "" || part === "."
    then rest
    else if part === ".."
    then parent_dir ∷ rest
    else normal part ∷ rest

unfoldable pub components_of : List String → List Component
unfolding later
components_of [] = []
components_of (part ∷ []) = if part === "." then cur_dir ∷ [] else later (part ∷ [])
components_of (part ∷ next ∷ parts) =
    if part === ""
    then root_dir ∷ later (next ∷ parts)
    else if part === "."
    then cur_dir ∷ later (next ∷ parts)
    else later (part ∷ next ∷ parts)

unfoldable pub components : String → List Component
unfolding components_of split
components path = components_of (split path)

unfoldable pub is_absolute : List Component → Bool
is_absolute [] = false
is_absolute (root_dir ∷ cs) = true
is_absolute (cur_dir ∷ cs) = false
is_absolute (parent_dir ∷ cs) = false
is_absolute (normal part ∷ cs) = false

unfoldable pub check : List Component → Result (Unit {0})
check [] = ok tt
check (parent_dir ∷ cs) = err "path traversal (..)"
check (normal part ∷ cs) = check cs
check (root_dir ∷ cs) = err "invalid path component"
check (cur_dir ∷ cs) = err "invalid path component"

abbrev checked : List Component → Result (Unit {0}) → Result (List Component)
checked cs (ok done) = ok cs
checked cs (err e) = err e

unfoldable pub sanitize_path : String → Result (List Component)
unfolding components is_absolute check
sanitize_path path =
    let cs = components path in
    if is_absolute cs then err "absolute paths not allowed" else checked cs (check cs)

abbrev same : Component → Component → Bool
same root_dir root_dir = true
same cur_dir cur_dir = true
same parent_dir parent_dir = true
same (normal a) (normal b) = a === b
same root_dir cur_dir = false
same root_dir parent_dir = false
same root_dir (normal b) = false
same cur_dir root_dir = false
same cur_dir parent_dir = false
same cur_dir (normal b) = false
same parent_dir root_dir = false
same parent_dir cur_dir = false
same parent_dir (normal b) = false
same (normal a) root_dir = false
same (normal a) cur_dir = false
same (normal a) parent_dir = false

unfoldable pub starts_with : List Component → List Component → Bool
starts_with cs [] = true
starts_with [] (d ∷ ds) = false
starts_with (c ∷ cs) (d ∷ ds) = same c d && starts_with cs ds

-- `join`: an absolute path takes the place of the first.
unfoldable pub join : List Component → List Component → List Component
unfolding is_absolute
join base rel = if is_absolute rel then rel else base ++ rel

unfoldable pub found : String → Option (List ℕ) → Result (List ℕ)
found path none = err (str_append "read " path)
found path (some data') = ok data'

module _ (read_file : List Component → Option (List ℕ)) where
  unfoldable pub read_checked : List Component → String → Result (List Component) → Result (List ℕ)
  unfolding join starts_with found
  read_checked skills_dir path (err e) = err e
  read_checked skills_dir path (ok rel) =
      let full = join skills_dir rel in
      if starts_with full skills_dir then found path (read_file full) else err "path traversal"

  unfoldable pub read : List Component → String → Result (List ℕ)
  unfolding sanitize_path read_checked
  read skills_dir path = read_checked skills_dir path (sanitize_path path)
