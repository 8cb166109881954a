-- ===== src/Process/Server/Waiting.antt =====
-- The waiting loop of `exec_read`.
use nexal.Prelude.{
  Bool-cases, inl, inr, ◌⊎◌, subst, sym, ap, ◌∙◌, ◌++◌, ℕ, Bool, true, false, not, ◌||◌, Option,
  none, some, List, [], ◌∷◌, ◌≡◌, refl, arith, leb, if◌then◌else◌,
}
use nexal.Process.Types.{ReadParams, ReadResponse}
use nexal.Process.Read.{is_empty}
use nexal.Process.Server.{Turn, Result, ok, err, read_once, read_loop}

-- The call has something to say: an error, output, an exit, or that the time is over.
abbrev pub has_answer : ℕ → ℕ → Result ReadResponse → Bool
has_answer deadline now (err e) = true
has_answer deadline now (ok r) = not (is_empty r.chunks) || (r.exited || leb deadline now)

-- The last clock that a turn reads before it waits.
abbrev pub last_clock : ℕ → Turn → ℕ
last_clock deadline turn = if leb deadline turn.tested_at then turn.tested_at else turn.waiting_at

abbrev pub answers : ReadParams → ℕ → Turn → Bool
answers params deadline turn =
    has_answer deadline (last_clock deadline turn) (read_once turn.inner params)

-- The answer of the first turn that has one.
abbrev pub first_answer : ReadParams → ℕ → List Turn → Option (Result ReadResponse)
first_answer params deadline [] = none
first_answer params deadline (turn ∷ turns) =
    let rest = first_answer params deadline turns in
    if answers params deadline turn then some (read_once turn.inner params) else rest

turn_lem :
    (params : ReadParams) (deadline : ℕ) (turn : Turn) (turns : List Turn) (r : Result ReadResponse)
    → read_once turn.inner params ≡ r
    → read_loop params deadline (turn ∷ turns) ≡ (
        if has_answer deadline (last_clock deadline turn) r
        then some r
        else read_loop params deadline turns)
unfolding read_loop
turn_lem params deadline turn turns (err e) h = rw (h, read_loop)
turn_lem params deadline turn turns (ok r) h = rw (h, read_loop) (ground arith)

read_loop-first_answer :
    (params : ReadParams) (deadline : ℕ) (turns : List Turn)
    → read_loop params deadline turns ≡ first_answer params deadline turns
unfolding read_loop
read_loop-first_answer params deadline [] = refl
read_loop-first_answer params deadline (turn ∷ turns) =
    rw (turn_lem params deadline turn turns _ refl, read_loop-first_answer params deadline turns)

-- A clock of the turns has reached the deadline.
abbrev pub reaches : ℕ → List Turn → Bool
reaches deadline [] = false
reaches deadline (turn ∷ turns) =
    (leb deadline turn.tested_at || leb deadline turn.waiting_at) || reaches deadline turns

first_answer-some :
    (params : ReadParams) (deadline : ℕ) (turns : List Turn)
    → reaches deadline turns ≡ true
    → (r : Result ReadResponse) × (first_answer params deadline turns ≡ some r)
first_answer-some params deadline [] h = cc
first_answer-some params deadline (turn ∷ turns) h =
    elim (Bool-cases (answers params deadline turn)) [
      | inl yes' ↦ (read_once turn.inner params, rw yes')
      | inr not' ↦
          rw not' (
            first_answer-some params deadline turns
              (later params deadline turn turns _ refl h not'))
    ]
  where
    later :
        (params : ReadParams) (deadline : ℕ) (turn : Turn) (turns : List Turn)
        (r : Result ReadResponse)
        → read_once turn.inner params ≡ r
        → reaches deadline (turn ∷ turns) ≡ true
        → answers params deadline turn ≡ false
        → reaches deadline turns ≡ true
    later params deadline turn turns (err e) q h n = cc (rw q at n)
    later params deadline turn turns (ok r) q h n =
        let m : has_answer deadline (last_clock deadline turn) (ok r) ≡ false = rw q at n in
        ground arith

-- What the answer of a turn tells: an error, output, an exit, or that the turn's own last clock has
-- reached the deadline.
abbrev pub Told : ℕ → Turn → Result ReadResponse → Type 0
Told deadline turn (err e) = Unit {0}
Told deadline turn (ok r) =
    (is_empty r.chunks ≡ false)
    ⊎ ((r.exited ≡ true) ⊎ (leb deadline (last_clock deadline turn) ≡ true))

-- No turn has an answer.
abbrev pub AreSilent : ReadParams → ℕ → List Turn → Type 0
AreSilent params deadline [] = Unit {0}
AreSilent params deadline (turn ∷ turns) =
    (answers params deadline turn ≡ false) × AreSilent params deadline turns

-- `r` is what the first turn with something to tell reads.
pub record Answer (params : ReadParams) (deadline : ℕ) (turns : List Turn) (r : Result ReadResponse)
    : Type 0 where
  pub before : List Turn
  pub found : Turn
  pub after : List Turn
  pub split : turns ≡ before ++ found ∷ after
  pub silent : AreSilent params deadline before
  pub made : r ≡ read_once found.inner params
  pub told : Told deadline found r

has_answer-Told :
    (deadline : ℕ) (turn : Turn) (r : Result ReadResponse)
    → has_answer deadline (last_clock deadline turn) r ≡ true
    → Told deadline turn r
has_answer-Told deadline turn (err e) h = tt
has_answer-Told deadline turn (ok r) h = ground arith

first_answer-Answer :
    (params : ReadParams) (deadline : ℕ) (turns : List Turn) (r : Result ReadResponse)
    → first_answer params deadline turns ≡ some r
    → Answer params deadline turns r
first_answer-Answer params deadline [] r h = cc
first_answer-Answer params deadline (turn ∷ turns) r h =
    elim (Bool-cases (answers params deadline turn)) [
      | inl yes' ↦
          let found : some (read_once turn.inner params) ≡ some r = rw yes' at h in
          let e : read_once turn.inner params ≡ r = cc in
          record {
            before = [];
            found = turn;
            after = turns;
            split = refl;
            silent = tt;
            made = sym e;
            told =
                has_answer-Told deadline turn r
                  (subst (λ a. has_answer deadline (last_clock deadline turn) a ≡ true) e yes');
          }
      | inr not' ↦
          let later = first_answer-Answer params deadline turns r (rw not' at h) in
          record {
            before = turn ∷ later.before;
            found = later.found;
            after = later.after;
            split = ap (λ l. turn ∷ l) later.split;
            silent = (not', later.silent);
            made = later.made;
            told = later.told;
          }
    ]

-- A read that has turns until its deadline returns, and not before it has something to tell: the
-- answer is what one of the turns reads, the turns before it had no answer, and it is an error,
-- holds output, tells of the exit, or comes when that turn's clock has reached the deadline.
pub read_loop-Answer :
    (params : ReadParams) (deadline : ℕ) (turns : List Turn)
    → reaches deadline turns ≡ true
    → (r : Result ReadResponse) × (read_loop params deadline turns ≡ some r)
      × Answer params deadline turns r
read_loop-Answer params deadline turns h =
    let (r, e) = first_answer-some params deadline turns h in
    (
      r,
      read_loop-first_answer params deadline turns ∙ e,
      first_answer-Answer params deadline turns r e,
    )
