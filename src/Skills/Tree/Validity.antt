-- ===== src/Skills/Tree/Validity.antt =====
-- crates/nexal-agent/src/fs/skills.rs: the steps of `mount` keep the tree without a dangling
-- inode, and their `unwrap`s do not fail.
use nexal.Prelude.{
  ℕ, String, string_eq, nat_eq, ◌===◌, eq_lem, eq_self, Bool, true, false, ◌||◌, Option, none, some,
  List, [], ◌∷◌, ◌++◌, ◌≡◌, refl, sym, ap, ◌∙◌, is_some, arith, Bool-cases, inl, inr,
}
use nexal.Prelude.Map
use nexal.Prelude.Map.{Map, get-insert}
use nexal.Skills.Tree.{
  FsNode, dir, file, FsTree, with_node, with_path, push_to, push_child, add_file, enter_dir,
}

abbrev pub has : ℕ → List ℕ → Bool
has c [] = false
has c (d ∷ ds) = (c === d) || has c ds

abbrev pub kids : FsNode → List ℕ
kids (dir children) = children
kids (file rel_path size) = []

abbrev pub knows : FsTree → ℕ → Bool
knows tree ino = is_some (Map.get tree.nodes ino)

-- Each child and each path leads to a node.
pub record IsValid (tree : FsTree) : Type 0 where
  pub children :
      (ino c : ℕ) (node : FsNode)
      → Map.get tree.nodes ino ≡ some node
      → has c (kids node) ≡ true
      → knows tree c ≡ true
  pub paths :
      (path : String) (ino : ℕ) → Map.get tree.path_to_inode path ≡ some ino → knows tree ino ≡ true

pub has-append : (c d : ℕ) (cs : List ℕ) → has c (cs ++ d ∷ []) ≡ (has c cs || (c === d))
has-append c d [] = ground arith
has-append c d (e ∷ cs) = ground (arith, has-append c d cs)

abbrev pub with_at : FsTree → ℕ → FsNode → FsTree
with_at tree ino node = record tree { nodes = Map.insert tree.nodes ino node }

knows-with_at :
    (tree : FsTree) (ino j : ℕ) (node : FsNode)
    → knows (with_at tree ino node) j ≡ ((ino === j) || knows tree j)
knows-with_at tree ino j node = ground (arith, get-insert tree.nodes ino j node)

pub with_at-IsValid :
    (tree : FsTree) (ino : ℕ) (node : FsNode)
    → IsValid tree
    → ((c : ℕ) → has c (kids node) ≡ true → knows tree c ≡ true)
    → IsValid (with_at tree ino node)
with_at-IsValid tree ino node v inside = record {
  children = λ i c n found member. elim (Bool-cases (ino === i)) [
    | inl same ↦
        let e : node ≡ n = ground (arith, get-insert tree.nodes ino i node, found, same) in
        ground
          (arith, knows-with_at tree ino c node, inside c (ap (λ m. has c (kids m)) e ∙ member))
    | inr other ↦ ground (
      arith,
      knows-with_at tree ino c node,
      v.children i c n (ground (arith, get-insert tree.nodes ino i node, found, other)) member,
    )
  ];
  paths = λ path i found. ground (arith, knows-with_at tree ino i node, v.paths path i found);
}

pub with_path-IsValid :
    (tree : FsTree) (path : String) (ino : ℕ)
    → IsValid tree
    → knows tree ino ≡ true
    → IsValid (with_path tree path ino)
with_path-IsValid tree path ino v known = record {
  children = v.children;
  paths = λ p i found. elim (Bool-cases (path === p)) [
    | inl same ↦
        let e : ino ≡ i = ground (arith, get-insert tree.path_to_inode path p ino, found, same) in
        ap (knows tree) (sym e) ∙ known
    | inr other ↦
        v.paths p i (ground (arith, get-insert tree.path_to_inode path p ino, found, other))
  ];
}

-- What a step of the building keeps: the tree stays valid, and knows what it knew.
pub record Grows (before after : FsTree) : Type 0 where
  pub valid : IsValid after
  pub still : (ino : ℕ) → knows before ino ≡ true → knows after ino ≡ true

-- The step does not panic.
abbrev pub Succeeds : FsTree → Option FsTree → Type 0
Succeeds before result = (after : FsTree) × (result ≡ some after) × Grows before after

pub Grows-trans : {a b c : FsTree} → Grows a b → Grows b c → Grows a c
Grows-trans g h = record { valid = h.valid; still = λ ino k. h.still ino (g.still ino k) }

pub with_node-Grows :
    (tree : FsTree) (node : FsNode)
    → kids node ≡ []
    → IsValid tree
    → Grows tree (with_node tree node) × (knows (with_node tree node) tree.next_inode ≡ true)
with_node-Grows tree node none' v =
    let w =
      with_at-IsValid tree tree.next_inode node v (λ c h. ground (arith, ap (has c) none', h)) in
    (
      record {
        valid = record { children = w.children; paths = w.paths };
        still = λ ino k. ground (arith, knows-with_at tree tree.next_inode ino node, k);
      },
      ground
          (arith, knows-with_at tree tree.next_inode tree.next_inode node, eq_self tree.next_inode),
    )

push_to-Succeeds :
    (tree : FsTree) (parent child : ℕ) (node : Option FsNode)
    → IsValid tree
    → knows tree child ≡ true
    → is_some node ≡ true
    → Map.get tree.nodes parent ≡ node
    → Succeeds tree (push_to tree parent child node)
unfolding push_to
push_to-Succeeds tree parent child none v there known e = ground (arith, known)
push_to-Succeeds tree parent child (some (file rel_path size)) v there known e =
    (tree, refl, record { valid = v; still = λ ino k. k })
push_to-Succeeds tree parent child (some (dir cs)) v there known e =
    let node = dir (cs ++ child ∷ []) in
    (
      with_at tree parent node,
      refl,
      record {
        valid = with_at-IsValid tree parent node v (λ c h. elim (Bool-cases (has c cs)) [
          | inl old ↦ v.children parent c (dir cs) e old
          | inr fresh' ↦
              let same : c ≡ child =
                (eq_lem c child).0 (ground (arith, has-append c child cs, h, fresh')) in
              ap (knows tree) same ∙ there
        ]);
        still = λ ino k. ground (arith, knows-with_at tree parent ino node, k);
      },
    )

push_child-Succeeds :
    (tree : FsTree) (parent child : ℕ)
    → IsValid tree
    → knows tree parent ≡ true
    → knows tree child ≡ true
    → Succeeds tree (push_child tree parent child)
unfolding push_child
push_child-Succeeds tree parent child v known there =
    push_to-Succeeds tree parent child (Map.get tree.nodes parent) v there known refl

-- A new node under a path, as a child of `parent`
grown-Succeeds :
    (tree : FsTree) (parent : ℕ) (path : String) (node : FsNode)
    → kids node ≡ []
    → IsValid tree
    → knows tree parent ≡ true
    → (after : FsTree) × (push_child
          (with_path (with_node tree node) path tree.next_inode)
          parent
          tree.next_inode
        ≡ some after)
      × Grows tree after
      × (knows after tree.next_inode ≡ true)
grown-Succeeds tree parent path node none' v known =
    let grown = with_node-Grows tree node none' v in
    let named = with_path (with_node tree node) path tree.next_inode in
    let named-IsValid =
      with_path-IsValid (with_node tree node) path tree.next_inode grown.0.valid grown.1 in
    let (after, done, rest) =
      push_child-Succeeds named parent tree.next_inode named-IsValid (grown.0.still parent known)
        grown.1 in
    (
      after,
      done,
      record { valid = rest.valid; still = λ ino k. rest.still ino (grown.0.still ino k) },
      rest.still tree.next_inode grown.1,
    )

pub add_file-Succeeds :
    (tree : FsTree) (parent : ℕ) (rel_path : String) (size : ℕ)
    → IsValid tree
    → knows tree parent ≡ true
    → Succeeds tree (add_file tree parent rel_path size)
unfolding add_file
add_file-Succeeds tree parent rel_path size v known =
    let (after, done, grows, there) =
      grown-Succeeds tree parent rel_path (file rel_path size) refl v known in
    (after, done, grows)

pub enter_dir-Succeeds :
    (tree : FsTree) (parent : ℕ) (path : String) (found : Option ℕ)
    → Map.get tree.path_to_inode path ≡ found
    → IsValid tree
    → knows tree parent ≡ true
    → (after : FsTree) × (ino : ℕ) × (enter_dir tree parent path found ≡ some (after, ino))
      × Grows tree after
      × (knows after ino ≡ true)
unfolding enter_dir
enter_dir-Succeeds tree parent path (some ino) e v known =
    (tree, ino, refl, record { valid = v; still = λ i k. k }, v.paths path ino e)
enter_dir-Succeeds tree parent path none e v known =
    let (after, done, grows, there) = grown-Succeeds tree parent path (dir []) refl v known in
    (after, tree.next_inode, simp done refl, grows, there)
