-- ===== src/Skills/Tree.antt =====
-- crates/nexal-agent/src/fs/skills.rs: `FsTree`, and how `mount` builds it from the list of skills.
pub mod Validity
pub mod Mounting
use nexal.Prelude.{
  ℕ, String, string_eq, nat_eq, Bool, Option, none, some, List, [], ◌∷◌, ◌++◌, str_append, add64,
  ◌>>=◌,
}
use nexal.Prelude.Map
use nexal.Prelude.Map.{Map}
use nexal.Skills.Paths.{split, join}

pub data FsNode : Type 0 where
  dir : List ℕ → FsNode
  file : String → ℕ → FsNode

pub record FsTree : Type 0 where
  pub nodes : Map ℕ FsNode
  pub path_to_inode : Map String ℕ
  pub next_inode : ℕ

abbrev pub new : FsTree
new = record { nodes = (1, dir []) ∷ []; path_to_inode = []; next_inode = 2 }

pub record SkillFileInfo : Type 0 where
  pub path : String
  pub size : ℕ

pub record SkillInfo : Type 0 where
  pub name : String
  pub files : List SkillFileInfo

-- A node under the next inode
abbrev pub with_node : FsTree → FsNode → FsTree
with_node tree node = record tree {
  nodes = Map.insert tree.nodes tree.next_inode node;
  next_inode = add64 tree.next_inode 1;
}

abbrev pub with_path : FsTree → String → ℕ → FsTree
with_path tree path ino = record tree { path_to_inode = Map.insert tree.path_to_inode path ino }

-- `get_mut(&parent).unwrap()`, which panics where there is no node, and then `children.push`
unfoldable pub push_to : FsTree → ℕ → ℕ → Option FsNode → Option FsTree
push_to tree parent child none = none
push_to tree parent child (some (dir children)) =
    some (record tree { nodes = Map.insert tree.nodes parent (dir (children ++ child ∷ [])) })
push_to tree parent child (some (file rel_path size)) = some tree

unfoldable pub push_child : FsTree → ℕ → ℕ → Option FsTree
unfolding push_to
push_child tree parent child = push_to tree parent child (Map.get tree.nodes parent)

unfoldable pub child_path : String → String → String
child_path name path = str_append name (str_append "/" path)

unfoldable pub add_file : FsTree → ℕ → String → ℕ → Option FsTree
unfolding push_child
add_file tree parent rel_path size =
    push_child (with_path (with_node tree (file rel_path size)) rel_path tree.next_inode) parent
      tree.next_inode

abbrev entered : ℕ → Option FsTree → Option (FsTree × ℕ)
entered ino none = none
entered ino (some tree) = some (tree, ino)

unfoldable pub enter_dir : FsTree → ℕ → String → Option ℕ → Option (FsTree × ℕ)
unfolding push_child
enter_dir tree parent dir_path (some ino) = some (tree, ino)
enter_dir tree parent dir_path none = entered tree.next_inode (
    push_child (with_path (with_node tree (dir [])) dir_path tree.next_inode) parent
      tree.next_inode)

-- The loop over the parts of a file's path, with the parts that were passed
unfoldable pub place :
    String → SkillFileInfo → FsTree → ℕ → List String → List String → Option FsTree
unfolding add_file enter_dir
place name info tree parent passed [] = some tree
place name info tree parent passed (part ∷ []) =
    add_file tree parent (child_path name info.path) info.size
place name info tree parent passed (part ∷ next ∷ parts) = do
  let dir_path = child_path name (join (passed ++ part ∷ []))
  (tree', ino) ← enter_dir tree parent dir_path (Map.get tree.path_to_inode dir_path)
  place name info tree' ino (passed ++ part ∷ []) (next ∷ parts)

unfoldable pub add_files : String → ℕ → FsTree → List SkillFileInfo → Option FsTree
unfolding place
add_files name skill_inode tree [] = some tree
add_files name skill_inode tree (info ∷ infos) = do
  tree' ← place name info tree skill_inode [] (split info.path)
  add_files name skill_inode tree' infos

unfoldable pub add_skill : FsTree → SkillInfo → Option FsTree
unfolding add_files
add_skill tree skill = do
  let skill_inode = tree.next_inode
  filled ← add_files skill.name skill_inode (with_node tree (dir [])) skill.files
  listed ← add_file filled skill_inode (child_path skill.name "SKILL.md") 0
  some (with_path listed skill.name skill_inode)

-- The tree, and the children of the root
unfoldable pub add_skills : FsTree → List ℕ → List SkillInfo → Option (FsTree × List ℕ)
unfolding add_skill
add_skills tree children [] = some (tree, children)
add_skills tree children (skill ∷ skills) = do
  tree' ← add_skill tree skill
  add_skills tree' (children ++ tree.next_inode ∷ []) skills

unfoldable pub set_root : FsTree → List ℕ → Option FsNode → Option FsTree
set_root tree children none = none
set_root tree children (some (dir old)) =
    some (record tree { nodes = Map.insert tree.nodes 1 (dir children) })
set_root tree children (some (file rel_path size)) = some tree

-- `mount` up to the start of the file system. There is no tree where an `unwrap` fails.
unfoldable pub mount : List SkillInfo → Option FsTree
unfolding add_skills set_root
mount skills = do
  (tree, children) ← add_skills new [] skills
  set_root tree children (Map.get tree.nodes 1)
