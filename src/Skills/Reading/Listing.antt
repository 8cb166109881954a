-- ===== src/Skills/Reading/Listing.antt =====
-- crates/nexal-agent/src/fs/skills.rs: a directory that is listed in several calls of `readdir`.
use nexal.Prelude.{
  ℕ, zero, suc, ◌+◌, ◌≤◌, nat_eq, String, some, List, [], ◌∷◌, ◌++◌, ◌≡◌, refl, ap, sym, ◌∙◌,
  length, take, drop, arith,
}
use nexal.Prelude.Int.{pos}
use nexal.Prelude.Map
use nexal.Skills.Tree.{dir}
use nexal.Skills.Reading.{
  SkillsFuseFs, Reply, reply, error, Entry, numbered, dir_entries, readdir_node, readdir,
}
use nexal.Skills.Reading.Pages.{take-nothing}

drop-numbered : (o k : ℕ) (es : List Entry) → drop o (numbered k es) ≡ numbered (k + o) (drop o es)
drop-numbered zero k es = let same : k ≡ k + 0 = omega arith in ap (λ j. numbered j es) same
drop-numbered (suc o) k [] = refl
drop-numbered (suc o) k (e ∷ es) =
    let same : (k + 1) + o ≡ k + suc o = omega arith in
    drop-numbered o (k + 1) es ∙ ap (λ j. numbered j (drop o es)) same

take-numbered : (n k : ℕ) (es : List Entry) → take n (numbered k es) ≡ numbered k (take n es)
take-numbered zero k es = refl
take-numbered (suc n) k [] = refl
take-numbered (suc n) k (e ∷ es) = ap (λ l. (k + 1, e) ∷ l) (take-numbered n (k + 1) es)

-- The offset behind a page, from which the next call goes on
abbrev next_offset : ℕ → List (ℕ × Entry) → ℕ
next_offset o [] = o
next_offset o ((i, e) ∷ page) = next_offset i page

abbrev names : List (ℕ × Entry) → List Entry
names [] = []
names ((i, e) ∷ page) = e ∷ names page

next_offset-numbered : (o : ℕ) (es : List Entry) → next_offset o (numbered o es) ≡ o + length es
next_offset-numbered o [] = omega arith
next_offset-numbered o (e ∷ es) = next_offset-numbered (o + 1) es ∙ omega arith

names-numbered : (o : ℕ) (es : List Entry) → names (numbered o es) ≡ es
names-numbered o [] = refl
names-numbered o (e ∷ es) = ap (λ l. e ∷ l) (names-numbered (o + 1) es)

take-rest :
    (n m : ℕ) (es : List Entry)
    → take n es ++ take m (drop (length (take n es)) es) ≡ take (n + m) es
take-rest zero m es = let same : m ≡ 0 + m = omega arith in ap (λ k. take k es) same
take-rest (suc n) m [] = take-nothing m ∙ sym (take-nothing (suc n + m))
take-rest (suc n) m (e ∷ es) =
    let next : suc (n + m) ≡ suc n + m = omega arith in
    ap (λ l. e ∷ l) (take-rest n m es) ∙ ap (λ k. take k (e ∷ es)) next

drop-nothing : (n : ℕ) → drop {A = Entry} n [] ≡ []
drop-nothing zero = refl
drop-nothing (suc n) = refl

take-past : (n : ℕ) (es : List Entry) → length es ≤ n → take n es ≡ es
take-past zero [] h = refl
take-past (suc n) [] h = refl
take-past zero (e ∷ es) h = elim h [ ]
take-past (suc n) (e ∷ es) h = ap (λ l. e ∷ l) (take-past n es (omega (arith, h)))

drop-drop : (k o : ℕ) (es : List Entry) → drop k (drop o es) ≡ drop (o + k) es
drop-drop k zero es = let same : k ≡ 0 + k = omega arith in ap (λ j. drop j es) same
drop-drop k (suc o) [] = drop-nothing k ∙ sym (drop-nothing (suc o + k))
drop-drop k (suc o) (e ∷ es) =
    let next : suc (o + k) ≡ suc o + k = omega arith in
    drop-drop k o es ∙ ap (λ j. drop j (e ∷ es)) next

abbrev pub all : List ℕ → ℕ
all [] = 0
all (room ∷ rooms) = room + all rooms

module _ (show : ℕ → String) (fs : SkillsFuseFs) (ino : ℕ) where
  abbrev page_of : Reply (List (ℕ × Entry)) → List (ℕ × Entry)
  page_of (reply page) = page
  page_of (error e) = []

  -- The calls that list a directory: each has room for some entries and goes on behind the last.
  unfoldable pub list_pages : ℕ → List ℕ → List Entry
  unfolding readdir
  list_pages offset [] = []
  list_pages offset (room ∷ rooms) =
      let page = page_of (readdir show fs ino (pos offset) room) in
      names page ++ list_pages (next_offset offset page) rooms

  readdir-page :
      (children : List ℕ) (offset room : ℕ)
      → Map.get fs.tree.nodes ino ≡ some (dir children)
      → readdir show fs ino (pos offset) room
        ≡ reply (numbered offset (take room (drop offset (dir_entries show fs.tree ino children))))
  unfolding readdir readdir_node
  readdir-page children offset room node =
      let es = dir_entries show fs.tree ino children in
      let same : 0 + offset ≡ offset = omega arith in
      simp node (
        ap (λ page. reply (take room page)) (drop-numbered offset 0 es)
        ∙ ap reply (take-numbered room (0 + offset) (drop offset es))
        ∙ ap (λ o. reply (numbered o (take room (drop offset es)))) same)

  list_pages_from :
      (children : List ℕ) (offset : ℕ) (rooms : List ℕ)
      → Map.get fs.tree.nodes ino ≡ some (dir children)
      → list_pages offset rooms
        ≡ take (all rooms) (drop offset (dir_entries show fs.tree ino children))
  unfolding list_pages
  list_pages_from children offset [] node = refl
  list_pages_from children offset (room ∷ rooms) node =
      let es = dir_entries show fs.tree ino children in
      let page = take room (drop offset es) in
      simp
        (
          readdir-page children offset room node,
          names-numbered offset page,
          next_offset-numbered offset page,
          list_pages_from children (offset + length page) rooms node,
        )
        (ap (λ l. page ++ take (all rooms) l) (sym (drop-drop (length page) offset es))
          ∙ take-rest room (all rooms) (drop offset es))

-- Calls of `readdir` that start at 0 and go on where the last one ended, with room for as many
-- entries as there are, list each entry of a directory once and in order, however the room is split.
pub list_pages-entries :
    (show : ℕ → String) (fs : SkillsFuseFs) (ino : ℕ) (children rooms : List ℕ)
    → Map.get fs.tree.nodes ino ≡ some (dir children)
    → length (dir_entries show fs.tree ino children) ≤ all rooms
    → list_pages show fs ino 0 rooms ≡ dir_entries show fs.tree ino children
list_pages-entries show fs ino children rooms node enough =
    list_pages_from show fs ino children 0 rooms node
    ∙ take-past (all rooms) (dir_entries show fs.tree ino children) enough
