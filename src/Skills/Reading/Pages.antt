-- ===== src/Skills/Reading/Pages.antt =====
-- crates/nexal-agent/src/fs/skills.rs: a file that is read page by page.
use nexal.Prelude.{
  ℕ, zero, suc, ◌+◌, ◌-◌, ◌≤◌, nat_eq, string_eq, String, Bool, true, false, Option, none, some,
  List, [], ◌∷◌, ◌++◌, ◌≡◌, refl, ap, sym, ◌∙◌, if◌then◌else◌, length, leb, min, take, drop, arith,
  Bool-cases, inl, inr,
}
use nexal.Prelude.Int.{pos}
use nexal.Prelude.Map
use nexal.Prelude.Map.{get-insert_self}
use nexal.Skills.Tree.{file}
use nexal.Skills.Reading.{
  SkillsFuseFs, Reply, reply, error, fetched, fetch_file, slice, read_node, read,
}

drop-past : {A : Type 0} (n : ℕ) (xs : List A) → length xs ≤ n → drop n xs ≡ []
drop-past zero [] h = refl
drop-past (suc n) [] h = refl
drop-past zero (x ∷ xs) h = elim h [ ]
drop-past (suc n) (x ∷ xs) h = drop-past n xs (omega (arith, h))

pub take-nothing : {A : Type 0} (n : ℕ) → take {A = A} n [] ≡ []
take-nothing zero = refl
take-nothing (suc n) = refl

take-min : {A : Type 0} (n : ℕ) (xs : List A) → take (min n (length xs)) xs ≡ take n xs
take-min zero xs = let cut : min 0 (length xs) ≡ 0 = omega arith in ap (λ k. take k xs) cut
take-min (suc n) [] = let cut : min (suc n) 0 ≡ 0 = omega arith in ap (λ k. take k []) cut
take-min (suc n) (x ∷ xs) =
    let cut : min (suc n) (suc (length xs)) ≡ suc (min n (length xs)) = omega arith in
    ap (λ k. take k (x ∷ xs)) cut ∙ ap (λ l. x ∷ l) (take-min n xs)

take-length-drop :
    {A : Type 0} (start size : ℕ) (xs : List A)
    → take (min (start + size) (length xs) - start) (drop start xs) ≡ take size (drop start xs)
take-length-drop zero size xs =
    let cut : min (0 + size) (length xs) - 0 ≡ min size (length xs) = omega arith in
    ap (λ k. take k xs) cut ∙ take-min size xs
take-length-drop (suc start) size [] =
    take-nothing (min (suc start + size) 0 - suc start) ∙ sym (take-nothing size)
take-length-drop (suc start) size (x ∷ xs) =
    let cut : min (suc start + size) (suc (length xs)) - suc start
        ≡ min (start + size) (length xs) - start =
      omega arith in
    ap (λ k. take k (drop start xs)) cut ∙ take-length-drop start size xs

slice_lem :
    (data' : List ℕ) (start size : ℕ) → slice data' start size ≡ take size (drop start data')
unfolding slice
slice_lem data' start size = elim (Bool-cases (leb (length data') start)) [
  | inl past ↦ simp (past, drop-past start data' (ground (arith, past)), take-nothing size) refl
  | inr inside ↦ simp inside (take-length-drop start size data')
]

take-next_from :
    {A : Type 0} (n m : ℕ) (xs : List A) → take n xs ++ take m (drop n xs) ≡ take (n + m) xs
take-next_from zero m xs = ap (λ k. take k xs) (omega arith)
take-next_from (suc n) m [] = take-nothing m ∙ sym (take-nothing (suc n + m))
take-next_from (suc n) m (x ∷ xs) =
    let next : suc n + m ≡ suc (n + m) = omega arith in
    ap (λ l. x ∷ l) (take-next_from n m xs) ∙ sym (ap (λ k. take k (x ∷ xs)) next)

take-next :
    {A : Type 0} (n m start : ℕ) (xs : List A)
    → take n (drop start xs) ++ take m (drop (start + n) xs) ≡ take (n + m) (drop start xs)
take-next n m zero xs =
    ap (λ k. take n xs ++ take m (drop k xs)) (omega arith) ∙ take-next_from n m xs
take-next n m (suc start) [] =
    ap (λ l. take n [] ++ take m l) (drop-past (suc start + n) [] (omega arith))
    ∙ ap (λ l. l ++ take m []) (take-nothing n)
    ∙ take-nothing m
    ∙ sym (take-nothing (n + m))
take-next n m (suc start) (x ∷ xs) =
    let next : suc start + n ≡ suc (start + n) = omega arith in
    ap (λ k. take n (drop start xs) ++ take m (drop k (x ∷ xs))) next ∙ take-next n m start xs

-- The reads of a file in order: each starts where the one before was to end. The answers of the
-- gateway stand with the sizes; there is no data where a read fails.
abbrev joined : Reply (List ℕ) → Option (List ℕ) → Option (List ℕ)
joined (reply page) (some rest) = some (page ++ rest)
joined (reply page) none = none
joined (error e) rest = none

abbrev counted : Bool → ℕ → ℕ
counted asked n = (if asked then 1 else 0) + n

unfoldable pub read_pages :
    SkillsFuseFs → ℕ → ℕ → List (ℕ × Option (List ℕ)) → SkillsFuseFs × Option (List ℕ) × ℕ
unfolding read
read_pages fs ino start [] = (fs, some [], 0)
read_pages fs ino start ((size, answer) ∷ pages) =
    let page = read fs ino (pos start) size answer in
    let rest = read_pages page.0 ino (start + size) pages in
    (rest.0, joined page.1 rest.1, counted page.2 rest.2)

abbrev pub total : List (ℕ × Option (List ℕ)) → ℕ
total [] = 0
total ((size, answer) ∷ pages) = size + total pages

read-cached :
    (fs : SkillsFuseFs) (ino start size : ℕ) (answer : Option (List ℕ)) (path : String)
    (file_size : ℕ) (data' : List ℕ)
    → Map.get fs.tree.nodes ino ≡ some (file path file_size)
    → Map.get fs.file_cache path ≡ some data'
    → read fs ino (pos start) size answer ≡ (fs, reply (take size (drop start data')), false)
unfolding read read_node fetch_file fetched
read-cached fs ino start size answer path file_size data' node cached =
    simp (node, cached, slice_lem data' start size) refl

read-first :
    (fs : SkillsFuseFs) (ino size : ℕ) (path : String) (file_size : ℕ) (data' : List ℕ)
    → Map.get fs.tree.nodes ino ≡ some (file path file_size)
    → Map.get fs.file_cache path ≡ none
    → read fs ino (pos 0) size (some data') ≡ (
      record fs { file_cache = Map.insert fs.file_cache path data' },
      reply (take size (drop 0 data')),
      true,
    )
unfolding read read_node fetch_file fetched
read-first fs ino size path file_size data' node fresh =
    simp (node, fresh, slice_lem data' 0 size) refl

read_pages-cached :
    (fs : SkillsFuseFs) (ino start : ℕ) (pages : List (ℕ × Option (List ℕ))) (path : String)
    (file_size : ℕ) (data' : List ℕ)
    → Map.get fs.tree.nodes ino ≡ some (file path file_size)
    → Map.get fs.file_cache path ≡ some data'
    → read_pages fs ino start pages ≡ (fs, some (take (total pages) (drop start data')), 0)
unfolding read_pages
read_pages-cached fs ino start [] path file_size data' node cached = refl
read_pages-cached fs ino start ((size, answer) ∷ pages) path file_size data' node cached =
    simp
      (
        read-cached fs ino start size answer path file_size data' node cached,
        read_pages-cached fs ino (start + size) pages path file_size data' node cached,
        take-next size (total pages) start data',
      )
      refl

-- A file that is not yet known and is read in order from its start, in pages of any sizes, comes out
-- as the data of the gateway's first answer, as far as the pages go; the gateway is asked once.
pub read_pages-fetched :
    (fs : SkillsFuseFs) (ino size : ℕ) (pages : List (ℕ × Option (List ℕ))) (path : String)
    (file_size : ℕ) (data' : List ℕ)
    → Map.get fs.tree.nodes ino ≡ some (file path file_size)
    → Map.get fs.file_cache path ≡ none
    → let (after, read_data, asked) = read_pages fs ino 0 ((size, some data') ∷ pages) in
      (read_data ≡ some (take (size + total pages) data'))
      × (asked ≡ 1)
      × (Map.get after.file_cache path ≡ some data')
unfolding read_pages
read_pages-fetched fs ino size pages path file_size data' node fresh =
    let fs' = record fs { file_cache = Map.insert fs.file_cache path data' } in
    let kept = get-insert_self fs.file_cache path data' in
    simp
      (
        read-first fs ino size path file_size data' node fresh,
        read_pages-cached fs' ino (0 + size) pages path file_size data' node kept,
        take-next size (total pages) 0 data',
      )
      (refl, refl, kept)
