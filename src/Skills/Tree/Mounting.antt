-- ===== src/Skills/Tree/Mounting.antt =====
-- crates/nexal-agent/src/fs/skills.rs: `mount` builds a tree without a dangling inode, and its
-- `unwrap`s do not fail.
use nexal.Prelude.{
  ℕ, String, string_eq, nat_eq, eq_lem, true, Option, none, some, List, [], ◌∷◌, ◌++◌, ◌≡◌, refl,
  ap, ◌∙◌, is_some, arith, Bool-cases, inl, inr,
}
use nexal.Prelude.Map
use nexal.Prelude.Map.{Map, get-insert}
use nexal.Skills.Paths.{split, join}
use nexal.Skills.Tree.{
  FsNode, dir, file, FsTree, new, SkillFileInfo, SkillInfo, with_node, with_path, child_path, place,
  add_files, add_skill, add_skills, set_root, mount,
}
use nexal.Skills.Tree.Validity.{
  has, kids, knows, IsValid, has-append, with_at, with_at-IsValid, with_path-IsValid, Grows,
  Succeeds, Grows-trans, with_node-Grows, add_file-Succeeds, enter_dir-Succeeds,
}

place-Succeeds :
    (name : String) (info : SkillFileInfo) (tree : FsTree) (parent : ℕ) (passed parts : List String)
    → IsValid tree
    → knows tree parent ≡ true
    → Succeeds tree (place name info tree parent passed parts)
unfolding place
place-Succeeds name info tree parent passed [] v known =
    (tree, refl, record { valid = v; still = λ ino k. k })
place-Succeeds name info tree parent passed (part ∷ []) v known =
    add_file-Succeeds tree parent (child_path name info.path) info.size v known
place-Succeeds name info tree parent passed (part ∷ next ∷ parts) v known =
    let path = child_path name (join (passed ++ part ∷ [])) in
    let (tree', ino, entered', grows, there) =
      enter_dir-Succeeds tree parent path (Map.get tree.path_to_inode path) refl v known in
    let (after, done, more) =
      place-Succeeds name info tree' ino (passed ++ part ∷ []) (next ∷ parts) grows.valid there in
    (after, simp entered' done, Grows-trans grows more)

add_files-Succeeds :
    (name : String) (ino : ℕ) (tree : FsTree) (infos : List SkillFileInfo)
    → IsValid tree
    → knows tree ino ≡ true
    → Succeeds tree (add_files name ino tree infos)
unfolding add_files
add_files-Succeeds name ino tree [] v known = (tree, refl, record { valid = v; still = λ i k. k })
add_files-Succeeds name ino tree (info ∷ infos) v known =
    let (placed, done, grows) = place-Succeeds name info tree ino [] (split info.path) v known in
    let (after, rest, more) =
      add_files-Succeeds name ino placed infos grows.valid (grows.still ino known) in
    (after, simp done rest, Grows-trans grows more)

add_skill-Succeeds :
    (tree : FsTree) (skill : SkillInfo)
    → IsValid tree
    → (after : FsTree) × (add_skill tree skill ≡ some after)
      × Grows tree after
      × (knows after tree.next_inode ≡ true)
unfolding add_skill
add_skill-Succeeds tree skill v =
    let ino = tree.next_inode in
    let (begun, known) = with_node-Grows tree (dir []) refl v in
    let (filled, done, grows) =
      add_files-Succeeds skill.name ino (with_node tree (dir [])) skill.files begun.valid known in
    let (listed, wrote, more) =
      add_file-Succeeds filled ino (child_path skill.name "SKILL.md") 0 grows.valid
        (grows.still ino known) in
    let there = more.still ino (grows.still ino known) in
    let all = Grows-trans begun (Grows-trans grows more) in
    (
      with_path listed skill.name ino,
      simp (done, wrote) refl,
      record { valid = with_path-IsValid listed skill.name ino all.valid there; still = all.still },
      there,
    )

AllKnown : FsTree → List ℕ → Type 0
AllKnown tree children = (c : ℕ) → has c children ≡ true → knows tree c ≡ true

add_skills-Succeeds :
    (tree : FsTree) (children : List ℕ) (skills : List SkillInfo)
    → IsValid tree
    → AllKnown tree children
    → (after : FsTree) × (roots : List ℕ) × (add_skills tree children skills ≡ some (after, roots))
      × Grows tree after
      × AllKnown after roots
unfolding add_skills AllKnown
add_skills-Succeeds tree children [] v known =
    (tree, children, refl, record { valid = v; still = λ ino k. k }, known)
add_skills-Succeeds tree children (skill ∷ skills) v known =
    let ino = tree.next_inode in
    let (tree', done, grows, there) = add_skill-Succeeds tree skill v in
    let known' : AllKnown tree' (children ++ ino ∷ []) = λ c h. elim (Bool-cases (has c children)) [
      | inl old ↦ grows.still c (known c old)
      | inr fresh' ↦
          let same : c ≡ ino =
            (eq_lem c ino).0 (ground (arith, has-append c ino children, h, fresh')) in
          ap (knows tree') same ∙ there
    ] in
    let (after, roots, rest, more, all) =
      add_skills-Succeeds tree' (children ++ ino ∷ []) skills grows.valid known' in
    (after, roots, simp done rest, Grows-trans grows more, all)

set_root-IsValid :
    (tree : FsTree) (children : List ℕ) (node : Option FsNode)
    → IsValid tree
    → AllKnown tree children
    → is_some node ≡ true
    → (after : FsTree) × (set_root tree children node ≡ some after) × IsValid after
unfolding set_root AllKnown
set_root-IsValid tree children none v known there = ground (arith, there)
set_root-IsValid tree children (some (file rel_path size)) v known there = (tree, refl, v)
set_root-IsValid tree children (some (dir old)) v known there =
    (with_at tree 1 (dir children), refl, with_at-IsValid tree 1 (dir children) v known)

new-IsValid : IsValid new
unfolding Map.get
new-IsValid = record {
  children = λ ino c node found member. elim (Bool-cases (nat_eq.beq 1 ino)) [
    | inl same ↦
        let e : dir [] ≡ node = ground (arith, found, same) in
        ground (arith, ap (λ m. has c (kids m)) e, member)
    | inr other ↦ ground (arith, found, other)
  ];
  paths = λ path ino found. ground (arith, found);
}

new-knows : knows new 1 ≡ true
unfolding Map.get
new-knows = refl

-- Whatever skills and paths the gateway lists, `mount` builds a tree without a panic in which each
-- child of a directory and each path leads to a node.
pub mount-IsValid :
    (skills : List SkillInfo) → (tree : FsTree) × (mount skills ≡ some tree) × IsValid tree
unfolding mount AllKnown
mount-IsValid skills =
    let (filled, roots, done, grows, known) =
      add_skills-Succeeds new [] skills new-IsValid (λ c h. ground (arith, h)) in
    let (tree, rooted, valid) =
      set_root-IsValid filled roots (Map.get filled.nodes 1) grows.valid known
        (grows.still 1 new-knows) in
    (tree, simp done rooted, valid)
