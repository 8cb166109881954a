-- ===== src/Skills/Examples.antt =====
-- The theorems on the skills at concrete inputs.
use nexal.Prelude.{
  ℕ, ◌+◌, String, string_eq, nat_eq, Option, none, some, List, [], ◌∷◌, ◌++◌, ◌≡◌, refl, take,
  arith,
}
use nexal.Prelude.Map
use nexal.Skills.Paths.{split}
use nexal.Skills.Tree.{FsTree, dir, file, SkillInfo, mount}
use nexal.Skills.Tree.Validity.{IsValid}
use nexal.Skills.Tree.Mounting.{mount-IsValid}
use nexal.Skills.Reading.{SkillsFuseFs, dir_entries, child_entries}
use nexal.Skills.Reading.Pages.{read_pages, total, read_pages-fetched}
use nexal.Skills.Reading.Listing.{list_pages, list_pages-entries}
use nexal.Skills.Service.{
  Component, root_dir, normal, read, sanitize_path, components, components_of, later, is_absolute,
  check, read_checked, starts_with, found,
}
use nexal.Skills.Service.Confined.{resolve, read-confined}

abbrev skills : List SkillInfo
skills =
    record {
      name = "jina-reader";
      files =
          record { path = "scripts/read.py"; size = 9 }
          ∷ record { path = "scripts/lib/a.py"; size = 4 }
          ∷ [];
    }
    ∷ []

mount-IsValid_example : (tree : FsTree) × (mount skills ≡ some tree) × IsValid tree
mount-IsValid_example = mount-IsValid skills

abbrev fs : SkillsFuseFs
fs = record {
  tree = record {
    nodes = (1, dir (2 ∷ [])) ∷ (2, dir (3 ∷ [])) ∷ (3, file "jina/SKILL.md" 0) ∷ [];
    path_to_inode = ("jina", 2) ∷ ("jina/SKILL.md", 3) ∷ [];
    next_inode = 4;
  };
  file_cache = [];
}

abbrev pages : List (ℕ × Option (List ℕ))
pages = (2, none) ∷ (4, none) ∷ []

read_pages-fetched_example :
    let (after, read_data, asked) =
      read_pages fs 3 0 ((2, some (1 ∷ 2 ∷ 3 ∷ 4 ∷ 5 ∷ [])) ∷ pages) in
    (read_data ≡ some (take (2 + total pages) (1 ∷ 2 ∷ 3 ∷ 4 ∷ 5 ∷ [])))
    × (asked ≡ 1)
    × (Map.get after.file_cache "jina/SKILL.md" ≡ some (1 ∷ 2 ∷ 3 ∷ 4 ∷ 5 ∷ []))
unfolding Map.get
read_pages-fetched_example =
    read_pages-fetched fs 3 2 pages "jina/SKILL.md" 0 (1 ∷ 2 ∷ 3 ∷ 4 ∷ 5 ∷ []) refl refl

abbrev show : ℕ → String
show n = "0"

list_pages-entries_example :
    list_pages show fs 2 0 (1 ∷ 1 ∷ 2 ∷ []) ≡ dir_entries show fs.tree 2 (3 ∷ [])
unfolding Map.get dir_entries child_entries
list_pages-entries_example =
    list_pages-entries show fs 2 (3 ∷ []) (1 ∷ 1 ∷ 2 ∷ []) refl (omega arith)

abbrev base : List Component
base = root_dir ∷ normal "skills" ∷ []

abbrev read_file : List Component → Option (List ℕ)
read_file cs = some (7 ∷ [])

read-confined_example :
    (full : List Component) × (parts : List String) × (read_file full ≡ some (7 ∷ []))
    × (resolve [] full ≡ resolve [] base ++ parts)
unfolding read sanitize_path components components_of later split is_absolute check read_checked
    starts_with found
read-confined_example = read-confined read_file base "jina/./SKILL.md" (7 ∷ []) refl
