-- ===== src/Skills/Service/Confined.antt =====
-- crates/nexal-gateway/src/skills.rs: what `skills/read` reads lies below the skills directory.
use nexal.Prelude.{
  ℕ, String, string_eq, Bool, true, false, Option, none, some, List, [], ◌∷◌, ◌++◌, ◌≡◌, refl, ap,
  sym, ◌∙◌, if◌then◌else◌, ◌⊎◌, arith, Bool-cases, inl, inr, append_assoc, append-nil,
}
use nexal.Skills.Service.{
  Component, root_dir, cur_dir, parent_dir, normal, Result, ok, err, components, is_absolute, check,
  checked, sanitize_path, starts_with, join, found, read_checked, read,
}

-- The directories that a path leads through from the root, as `..` and `/` are resolved
abbrev init : List String → List String
init [] = []
init (part ∷ []) = []
init (part ∷ next ∷ parts) = part ∷ init (next ∷ parts)

unfoldable pub resolve : List String → List Component → List String
resolve stack [] = stack
resolve stack (root_dir ∷ cs) = resolve [] cs
resolve stack (cur_dir ∷ cs) = resolve stack cs
resolve stack (parent_dir ∷ cs) = resolve (init stack) cs
resolve stack (normal part ∷ cs) = resolve (stack ++ part ∷ []) cs

abbrev pub normals : List String → List Component
normals [] = []
normals (part ∷ parts) = normal part ∷ normals parts

resolve-normals : (stack parts : List String) → resolve stack (normals parts) ≡ stack ++ parts
unfolding resolve
resolve-normals stack [] = sym (append-nil stack)
resolve-normals stack (part ∷ parts) =
    resolve-normals (stack ++ part ∷ []) parts ∙ append_assoc stack (part ∷ []) parts

resolve-append :
    (stack : List String) (cs ds : List Component)
    → resolve stack (cs ++ ds) ≡ resolve (resolve stack cs) ds
unfolding resolve
resolve-append stack [] ds = refl
resolve-append stack (root_dir ∷ cs) ds = resolve-append [] cs ds
resolve-append stack (cur_dir ∷ cs) ds = resolve-append stack cs ds
resolve-append stack (parent_dir ∷ cs) ds = resolve-append (init stack) cs ds
resolve-append stack (normal part ∷ cs) ds = resolve-append (stack ++ part ∷ []) cs ds

check-normals :
    (cs : List Component) → check cs ≡ ok tt → (parts : List String) × (cs ≡ normals parts)
unfolding check
check-normals [] h = ([], refl)
check-normals (parent_dir ∷ cs) h = ground (arith, h)
check-normals (root_dir ∷ cs) h = ground (arith, h)
check-normals (cur_dir ∷ cs) h = ground (arith, h)
check-normals (normal part ∷ cs) h =
    let (parts, e) = check-normals cs h in (part ∷ parts, ap (λ l. normal part ∷ l) e)

is_absolute-normals : (parts : List String) → is_absolute (normals parts) ≡ false
unfolding is_absolute
is_absolute-normals [] = refl
is_absolute-normals (part ∷ parts) = refl

Result-cases : {A : Type 0} (r : Result A) → ((e : String) × (r ≡ err e)) ⊎ ((a : A) × (r ≡ ok a))
Result-cases (err e) = inl (e, refl)
Result-cases (ok a) = inr (a, refl)

checked-normals :
    (cs rel : List Component) (r : Result (Unit {0}))
    → check cs ≡ r
    → checked cs r ≡ ok rel
    → (parts : List String) × (rel ≡ normals parts)
checked-normals cs rel (err e) same h = ground (arith, h)
checked-normals cs rel (ok tt) same h =
    let (parts, e) = check-normals cs same in
    let kept : cs ≡ rel = ground (arith, h) in (parts, sym kept ∙ e)

sanitize_path-normals :
    (path : String) (rel : List Component)
    → sanitize_path path ≡ ok rel
    → (parts : List String) × (rel ≡ normals parts)
unfolding sanitize_path
sanitize_path-normals path rel h =
    let cs = components path in
    elim (Bool-cases (is_absolute cs)) [
      | inl absolute ↦ ground (arith, h, absolute)
      | inr relative ↦ checked-normals cs rel (check cs) refl (ground (arith, h, relative))
    ]

found-some :
    (path : String) (o : Option (List ℕ)) (data' : List ℕ)
    → found path o ≡ ok data'
    → o ≡ some data'
unfolding found
found-some path none data' h = ground (arith, h)
found-some path (some d) data' h = ground (arith, h)

tested-some :
    (test : Bool) (path refusal : String) (o : Option (List ℕ)) (data' : List ℕ)
    → (if test then found path o else err refusal) ≡ ok data'
    → o ≡ some data'
tested-some true path refusal o data' h = found-some path o data' h
tested-some false path refusal o data' h = ground (arith, h)

join-normals :
    (base : List Component) (parts : List String)
    → join base (normals parts) ≡ base ++ normals parts
unfolding join
join-normals base parts = simp (is_absolute-normals parts) refl

module _ (read_file : List Component → Option (List ℕ)) where
  checked-confined :
      (base : List Component) (path : String) (rel : List Component) (parts : List String)
      (data' : List ℕ)
      → rel ≡ normals parts
      → read_checked read_file base path (ok rel) ≡ ok data'
      → (read_file (base ++ normals parts) ≡ some data')
        × (resolve [] (base ++ normals parts) ≡ resolve [] base ++ parts)
  unfolding read_checked
  checked-confined base path rel parts data' e h =
      let full = join base rel in
      let content =
        tested-some (starts_with full base) path "path traversal" (read_file full) data' h in
      let here = ap (join base) e ∙ join-normals base parts in
      (
        ap read_file (sym here) ∙ content,
        resolve-append [] base (normals parts) ∙ resolve-normals (resolve [] base) parts,
      )

-- What `skills/read` gives is the content of a file that lies below the skills directory, where the
-- path to it is resolved without regard to links.
pub read-confined :
    (read_file : List Component → Option (List ℕ)) (base : List Component) (path : String)
    (data' : List ℕ)
    → read read_file base path ≡ ok data'
    → (full : List Component) × (parts : List String) × (read_file full ≡ some data')
      × (resolve [] full ≡ resolve [] base ++ parts)
unfolding read read_checked
read-confined read_file base path data' h = elim (Result-cases (sanitize_path path)) [
  | inl (e, refused) ↦
      let bad : err e ≡ ok data' = ap (read_checked read_file base path) (sym refused) ∙ h in
      ground (arith, bad)
  | inr (rel, accepted) ↦
      let (parts, e) = sanitize_path-normals path rel accepted in
      let (there, below) =
        checked-confined read_file base path rel parts data' e
          (ap (read_checked read_file base path) (sym accepted) ∙ h) in
      (base ++ normals parts, parts, there, below)
]
