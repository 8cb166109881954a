-- ===== src/Process/Read/Collect.antt =====
-- The loop of `exec_read` takes a prefix of the chunks, no longer than the byte limit allows and
-- as long as it allows.
use nexal.Prelude.{
  Bool, ap, ltb→lt, leb→le, ◌∙◌, ℕ, ◌+◌, ◌≤◌, ◌<◌, ◌≡◌, refl, sym, ◌⊎◌, inl, inr, ◌&&◌, not, List,
  [], ◌∷◌, ◌++◌, append_assoc, append-nil, length, arith, ltb, leb, Bool-cases, add64, add64-eq,
  u64_mod, true, false, ◌≢◌,
}
use nexal.Process.Types.{RetainedOutputChunk}
use nexal.Process.Output.Window.{bytes, bytes-append}
use nexal.Process.Read.{is_empty, collect}

-- `next_seq` after a page
abbrev pub next_from : List RetainedOutputChunk → ℕ → ℕ
next_from [] n = n
next_from (c ∷ cs) n = next_from cs (c.seq + 1)

-- The limit is kept, unless the page is one chunk.
abbrev pub Fits : ℕ → List RetainedOutputChunk → Type 0
Fits max_bytes page = (bytes page ≤ max_bytes) ⊎ (length page ≤ 1)

-- The page ends where the chunks end, where the limit is reached, or where the next chunk would
-- pass it.
abbrev pub IsFull : ℕ → List RetainedOutputChunk → List RetainedOutputChunk → Type 0
IsFull max_bytes page [] = Unit {0}
IsFull max_bytes page (c ∷ cs) =
    (page ≢ []) × ((max_bytes < bytes page + length c.chunk) ⊎ (max_bytes ≤ bytes page))

-- `page` is what the loop makes of `chunks` and the chunks `cs` that are left.
pub record IsPage (max_bytes : ℕ) (chunks cs : List RetainedOutputChunk) (next : ℕ)
    (page : List RetainedOutputChunk × ℕ) : Type 0 where
  pub taken : List RetainedOutputChunk
  pub left : List RetainedOutputChunk
  pub split : cs ≡ taken ++ left
  pub page_eq : page.0 ≡ chunks ++ taken
  pub next_eq : page.1 ≡ next_from taken next
  pub fits : Fits max_bytes page.0
  pub full : IsFull max_bytes page.0 left

abbrev pub InRange : List RetainedOutputChunk → Type 0
InRange [] = Unit {0}
InRange (c ∷ cs) = (c.seq + 1 < u64_mod) × InRange cs

IsFull-reached :
    (max_bytes : ℕ) (page cs : List RetainedOutputChunk)
    → page ≢ []
    → max_bytes ≤ bytes page
    → IsFull max_bytes page cs
IsFull-reached max_bytes page [] n h = tt
IsFull-reached max_bytes page (c ∷ cs) n h = (n, inr h)

snoc-ne-nil : (cs : List RetainedOutputChunk) (c : RetainedOutputChunk) → cs ++ c ∷ [] ≢ []
snoc-ne-nil [] c e = cc
snoc-ne-nil (x ∷ xs) c e = cc

Fits-snoc :
    (max_bytes total : ℕ) (chunks : List RetainedOutputChunk) (c : RetainedOutputChunk)
    → total ≡ bytes (chunks ++ c ∷ [])
    → (not (is_empty chunks) && ltb max_bytes total) ≡ false
    → Fits max_bytes (chunks ++ c ∷ [])
Fits-snoc max_bytes total [] c e h = inr (omega arith)
Fits-snoc max_bytes total (x ∷ xs) c e h = inl (ground arith)

nonempty_of :
    (chunks : List RetainedOutputChunk) (b : Bool)
    → (not (is_empty chunks) && b) ≡ true
    → (chunks ≢ []) × (b ≡ true)
nonempty_of [] b h = cc
nonempty_of (x ∷ xs) b h = (λ e. cc, h)

module _ {max_bytes next : ℕ} {chunks cs : List RetainedOutputChunk}
    {page : List RetainedOutputChunk × ℕ} (c : RetainedOutputChunk) where
  IsPage-cons :
      IsPage max_bytes (chunks ++ c ∷ []) cs (c.seq + 1) page
      → IsPage max_bytes chunks (c ∷ cs) next page
  IsPage-cons g = record {
    taken = c ∷ g.taken;
    left = g.left;
    split = ap (◌∷◌ c) g.split;
    page_eq = g.page_eq ∙ append_assoc chunks (c ∷ []) g.taken;
    next_eq = g.next_eq;
    fits = g.fits;
    full = g.full;
  }

pub collect-IsPage :
    (max_bytes : ℕ) (cs chunks : List RetainedOutputChunk) (total next : ℕ)
    → InRange cs
    → total ≡ bytes chunks
    → total + bytes cs < u64_mod
    → Fits max_bytes chunks
    → IsPage max_bytes chunks cs next (collect max_bytes cs chunks total next)
unfolding collect
collect-IsPage max_bytes [] chunks total next r e room f = record {
  taken = [];
  left = [];
  split = refl;
  page_eq = sym (append-nil chunks);
  next_eq = refl;
  fits = f;
  full = tt;
}
collect-IsPage max_bytes (c ∷ cs) chunks total next r e room f =
    let pushed = chunks ++ c ∷ [] in
    let sum : add64 total (length c.chunk) ≡ bytes pushed =
      omega (arith, bytes-append chunks (c ∷ [])) in
    let seq : add64 c.seq 1 ≡ c.seq + 1 = add64-eq c.seq 1 r.0 in
    let rest =
      collect-IsPage max_bytes cs pushed (add64 total (length c.chunk)) (c.seq + 1) r.1 sum
        (omega arith) in
    rw seq
      (elim (Bool-cases (not (is_empty chunks) && ltb max_bytes (add64 total (length c.chunk)))) [
        | inl over ↦ rw over (record {
          taken = [];
          left = c ∷ cs;
          split = refl;
          page_eq = sym (append-nil chunks);
          next_eq = refl;
          fits = f;
          full = (
            (nonempty_of chunks _ over).0,
            inl omega (
              arith,
              ltb→lt _ _ (nonempty_of chunks _ over).1,
              sum,
              bytes-append chunks (c ∷ []),
            ),
          );
        })
        | inr within ↦ rw within (elim (Bool-cases (leb max_bytes (add64 total (length c.chunk)))) [
          | inl reached ↦ rw reached (record {
            taken = c ∷ [];
            left = cs;
            split = refl;
            page_eq = refl;
            next_eq = refl;
            fits = Fits-snoc max_bytes _ chunks c sum within;
            full =
                IsFull-reached max_bytes pushed cs (snoc-ne-nil chunks c)
                  (omega (arith, leb→le _ _ reached, sum));
          })
          | inr more ↦ rw more (IsPage-cons c (rest (Fits-snoc max_bytes _ chunks c sum within)))
        ])
      ])
