-- ===== src/Skills/Reading.antt =====
-- crates/nexal-agent/src/fs/skills.rs: `SkillsFuseFs`, the calls of the kernel on the mounted tree.
-- What the gateway answers to `skills/read` is an argument: the data, or nothing where the request or
-- the reading of its answer fails.
pub mod Pages
pub mod Listing
use nexal.Prelude.{
  ℕ, ◌+◌, ◌-◌, ◌/◌, String, string_eq, nat_eq, ◌===◌, Bool, true, false, Option, none, some, List,
  [], ◌∷◌, ◌++◌, if◌then◌else◌, length, leb, min, take, drop, str_append, u64_mod,
}
use nexal.Prelude.Int.{ℤ, pos, negsuc, pos_part}
use nexal.Prelude.Map
use nexal.Prelude.Map.{Map}
use nexal.Skills.Paths.{base_name}
use nexal.Skills.Tree.{FsNode, dir, file, FsTree}

pub record SkillsFuseFs : Type 0 where
  pub tree : FsTree
  pub file_cache : Map String (List ℕ)

pub data Errno : Type 0 where
  eio einval enoent enotdir : Errno

pub data Reply (A : Type 0) : Type 0 where
  reply : A → Reply A
  error : Errno → Reply A

-- The data, and whether the gateway was asked
unfoldable pub fetched :
    SkillsFuseFs → String → Option (List ℕ) → Option (List ℕ) → SkillsFuseFs × Reply (List ℕ) × Bool
fetched fs rel_path (some data') answer = (fs, reply data', false)
fetched fs rel_path none none = (fs, error eio, true)
fetched fs rel_path none (some data') =
    (record fs { file_cache = Map.insert fs.file_cache rel_path data' }, reply data', true)

unfoldable pub fetch_file :
    SkillsFuseFs → String → Option (List ℕ) → SkillsFuseFs × Reply (List ℕ) × Bool
unfolding fetched
fetch_file fs rel_path answer = fetched fs rel_path (Map.get fs.file_cache rel_path) answer

-- `&data[start..end]`, where a negative offset counts as 0 and `end` is cut off at the length
unfoldable pub slice : List ℕ → ℕ → ℕ → List ℕ
slice data' start size =
    if leb (length data') start
    then []
    else take (min (start + size) (length data') - start) (drop start data')

abbrev sliced : ℤ → ℕ → Reply (List ℕ) → Reply (List ℕ)
sliced offset size (reply data') = reply (slice data' (pos_part offset) size)
sliced offset size (error e) = error e

unfoldable pub read_node :
    SkillsFuseFs → Option FsNode → ℤ → ℕ → Option (List ℕ) → SkillsFuseFs × Reply (List ℕ) × Bool
unfolding fetch_file slice
read_node fs none offset size answer = (fs, error einval, false)
read_node fs (some (dir children)) offset size answer = (fs, error einval, false)
read_node fs (some (file rel_path file_size)) offset size answer =
    let got = fetch_file fs rel_path answer in (got.0, sliced offset size got.1, got.2)

unfoldable pub read :
    SkillsFuseFs → ℕ → ℤ → ℕ → Option (List ℕ) → SkillsFuseFs × Reply (List ℕ) × Bool
unfolding read_node
read fs ino offset size answer = read_node fs (Map.get fs.tree.nodes ino) offset size answer

-- The size that `getattr` gives; directories have size 0.
pub record Attr : Type 0 where
  pub ino : ℕ
  pub is_dir : Bool
  pub size : ℕ

abbrev size_of : ℕ → Reply (List ℕ) → ℕ
size_of n (reply data') = length data'
size_of n (error e) = 0

unfoldable pub attr_of :
    SkillsFuseFs → ℕ → Option FsNode → Option (List ℕ) → SkillsFuseFs × Reply Attr
unfolding fetch_file
attr_of fs ino none answer = (fs, error enoent)
attr_of fs ino (some (dir children)) answer =
    (fs, reply (record { ino = ino; is_dir = true; size = 0 }))
attr_of fs ino (some (file rel_path size)) answer =
    let got = fetch_file fs rel_path answer in
    if size === 0
    then (got.0, reply (record { ino = ino; is_dir = false; size = size_of size got.1 }))
    else (fs, reply (record { ino = ino; is_dir = false; size = size }))

unfoldable pub getattr : SkillsFuseFs → ℕ → Option (List ℕ) → SkillsFuseFs × Reply Attr
unfolding attr_of
getattr fs ino answer =
    if ino === 1
    then (fs, reply (record { ino = 1; is_dir = true; size = 0 }))
    else attr_of fs ino (Map.get fs.tree.nodes ino) answer

find_path : Map String ℕ → ℕ → Option String
find_path [] ino = none
find_path ((path, i) ∷ paths) ino =
    let rest = find_path paths ino in if i === ino then some path else rest

base_of : Option String → Option String
base_of none = none
base_of (some path) = some (base_name path)

unfoldable pub child_name : FsTree → ℕ → FsNode → Option String
unfolding find_path base_of
child_name tree ino (dir children) = base_of (find_path tree.path_to_inode ino)
child_name tree ino (file rel_path size) = some (base_name rel_path)

abbrev is_name : String → Option String → Bool
is_name name none = false
is_name name (some n) = n === name

abbrev entry_attr : ℕ → FsNode → Attr
entry_attr ino (dir children) = record { ino = ino; is_dir = true; size = 0 }
entry_attr ino (file rel_path size) = record { ino = ino; is_dir = false; size = size }

abbrev matching : FsTree → String → ℕ → Option FsNode → Option Attr
matching tree name ino none = none
matching tree name ino (some node) =
    if is_name name (child_name tree ino node) then some (entry_attr ino node) else none

abbrev first : Option Attr → Reply Attr → Reply Attr
first none rest = rest
first (some attr) rest = reply attr

unfoldable pub find_child : FsTree → String → List ℕ → Reply Attr
unfolding child_name
find_child tree name [] = error enoent
find_child tree name (ino ∷ children) =
    first (matching tree name ino (Map.get tree.nodes ino)) (find_child tree name children)

unfoldable pub lookup_node : FsTree → String → Option FsNode → Reply Attr
unfolding find_child
lookup_node tree name none = error enoent
lookup_node tree name (some (file rel_path size)) = error enoent
lookup_node tree name (some (dir children)) = find_child tree name children

unfoldable pub lookup : SkillsFuseFs → ℕ → String → Reply Attr
unfolding lookup_node
lookup fs parent name = lookup_node fs.tree name (Map.get fs.tree.nodes parent)

-- An entry of a directory: its inode, whether it is a directory, and its name
abbrev pub Entry : Type 0
Entry = ℕ × Bool × String

abbrev pub numbered : ℕ → List Entry → List (ℕ × Entry)
numbered i [] = []
numbered i (e ∷ es) = (i + 1, e) ∷ numbered (i + 1) es

-- `offset as usize`
abbrev as_usize : ℤ → ℕ
as_usize (pos n) = n
as_usize (negsuc n) = u64_mod - (n + 1)

module _ (show : ℕ → String) where
  abbrev shown : ℕ → Option String → String
  shown ino none = str_append "dir-" (show ino)
  shown ino (some name) = name

  abbrev entry : FsTree → ℕ → Option FsNode → List Entry
  entry tree ino none = []
  entry tree ino (some (dir children)) =
      (ino, true, shown ino (child_name tree ino (dir children))) ∷ []
  entry tree ino (some (file rel_path size)) = (ino, false, base_name rel_path) ∷ []

  unfoldable pub child_entries : FsTree → List ℕ → List Entry
  unfolding child_name
  child_entries tree [] = []
  child_entries tree (ino ∷ children) =
      entry tree ino (Map.get tree.nodes ino) ++ child_entries tree children

  unfoldable pub dir_entries : FsTree → ℕ → List ℕ → List Entry
  unfolding child_entries
  dir_entries tree ino children = (ino, true, ".") ∷ (ino, true, "..") ∷ child_entries tree children

  -- With `room`, the entries that the buffer of the reply takes: each comes with the offset behind it.
  unfoldable pub readdir_node : FsTree → ℕ → Option FsNode → ℤ → ℕ → Reply (List (ℕ × Entry))
  unfolding dir_entries
  readdir_node tree ino none offset room = error enotdir
  readdir_node tree ino (some (file rel_path size)) offset room = error enotdir
  readdir_node tree ino (some (dir children)) offset room =
      reply (take room (drop (as_usize offset) (numbered 0 (dir_entries tree ino children))))

  unfoldable pub readdir : SkillsFuseFs → ℕ → ℤ → ℕ → Reply (List (ℕ × Entry))
  unfolding readdir_node
  readdir fs ino offset room = readdir_node fs.tree ino (Map.get fs.tree.nodes ino) offset room
