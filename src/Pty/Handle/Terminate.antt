-- ===== src/Pty/Handle/Terminate.antt =====
-- A child is killed and its tasks are aborted once, however often it is asked for.
use nexal.Prelude.{
  ℕ, ◌+◌, nat_eq, ◌==◌, Bool, true, false, Option, none, some, List, [], ◌∷◌, ◌++◌, map, ◌≡◌, refl,
  arith, if◌then◌else◌,
}
use nexal.Pty.Handle.{ProcessHandle, Effect, kill, abort, effects_of, request_terminate, terminate}

-- The calls that end a child
pub data Call : Type 0 where
  requesting terminating : Call

abbrev pub perform : ProcessHandle → Call → ProcessHandle × List Effect
perform h requesting = request_terminate h
perform h terminating = terminate h

unfoldable pub performed : ProcessHandle → List Call → ProcessHandle × List Effect
performed h [] = (h, [])
performed h (c ∷ calls) =
    let now = perform h c in let rest = performed now.0 calls in (rest.0, now.1 ++ rest.1)

abbrev pub is_same : Effect → Effect → Bool
is_same (kill k) (kill l) = k == l
is_same (abort t) (abort u) = t == u
is_same (kill k) (abort u) = false
is_same (abort t) (kill l) = false

-- How often an effect stands in a list
abbrev pub times : Effect → List Effect → ℕ
times e [] = 0
times e (f ∷ effects) = (if is_same e f then 1 else 0) + times e effects

abbrev pub in_slot : ℕ → Option ℕ → ℕ
in_slot n none = 0
in_slot n (some m) = if n == m then 1 else 0

abbrev pub in_list : ℕ → List ℕ → ℕ
in_list n [] = 0
in_list n (m ∷ l) = (if n == m then 1 else 0) + in_list n l

-- How often a handle owns what an effect is a call on: the killer, or a helper task
abbrev pub owned : ProcessHandle → Effect → ℕ
owned h (kill k) = in_slot k h.killer
owned h (abort t) =
    in_slot t h.reader_handle
    + (in_list t h.reader_abort_handles + (in_slot t h.writer_handle + in_slot t h.wait_handle))

abbrev pub terminates : List Call → Bool
terminates [] = false
terminates (requesting ∷ calls) = terminates calls
terminates (terminating ∷ calls) = true

-- Both calls kill the child, and only `terminate` aborts the tasks.
abbrev pub is_due : List Call → Effect → Bool
is_due [] e = false
is_due (c ∷ calls) (kill k) = true
is_due (c ∷ calls) (abort t) = terminates (c ∷ calls)

times-append : (e : Effect) (l m : List Effect) → times e (l ++ m) ≡ times e l + times e m
times-append e [] m = omega arith
times-append e (f ∷ l) m = ground (arith, times-append e l m)

times-kills :
    (k : ℕ) (slot : Option ℕ)
    → (times (kill k) (effects_of kill slot) ≡ in_slot k slot)
      × (times (kill k) (effects_of abort slot) ≡ 0)
unfolding effects_of
times-kills k none = (refl, refl)
times-kills k (some n) = (omega arith, refl)

times-aborts :
    (t : ℕ) (slot : Option ℕ)
    → (times (abort t) (effects_of abort slot) ≡ in_slot t slot)
      × (times (abort t) (effects_of kill slot) ≡ 0)
unfolding effects_of
times-aborts t none = (refl, refl)
times-aborts t (some n) = (omega arith, refl)

times-map :
    (n : ℕ) (l : List ℕ)
    → (times (abort n) (map abort l) ≡ in_list n l) × (times (kill n) (map abort l) ≡ 0)
times-map n [] = (refl, refl)
times-map n (m ∷ l) = let rest = times-map n l in (ground (arith, rest.0), ground (arith, rest.1))

terminate-times : (h : ProcessHandle) (e : Effect) → times e (terminate h).1 ≡ owned h e
unfolding terminate
terminate-times h (kill k) =
    simp
      (
        times-append,
        (times-kills k h.killer).0,
        (times-kills k h.reader_handle).1,
        (times-kills k h.writer_handle).1,
        (times-kills k h.wait_handle).1,
        (times-map k h.reader_abort_handles).1,
      )
      (omega arith)
terminate-times h (abort t) =
    simp
      (
        times-append,
        (times-aborts t h.killer).1,
        (times-aborts t h.reader_handle).0,
        (times-aborts t h.writer_handle).0,
        (times-aborts t h.wait_handle).0,
        (times-map t h.reader_abort_handles).0,
      )
      (omega arith)

-- What is owned behind each of the calls
terminate-owned : (h : ProcessHandle) (e : Effect) → owned (terminate h).0 e ≡ 0
unfolding terminate
terminate-owned h (kill k) = refl
terminate-owned h (abort t) = omega arith

request_terminate-owned :
    (h : ProcessHandle) (n : ℕ)
    → (owned (request_terminate h).0 (kill n) ≡ 0)
      × (owned (request_terminate h).0 (abort n) ≡ owned h (abort n))
unfolding request_terminate
request_terminate-owned h n = (refl, refl)

request_terminate-times :
    (h : ProcessHandle) (n : ℕ)
    → (times (kill n) (request_terminate h).1 ≡ owned h (kill n))
      × (times (abort n) (request_terminate h).1 ≡ 0)
unfolding request_terminate
request_terminate-times h n = ((times-kills n h.killer).0, (times-aborts n h.killer).1)

is_due-terminating : (calls : List Call) (e : Effect) → is_due (terminating ∷ calls) e ≡ true
is_due-terminating calls (kill k) = refl
is_due-terminating calls (abort t) = refl

is_due-requesting :
    (calls : List Call) (t : ℕ) → is_due (requesting ∷ calls) (abort t) ≡ is_due calls (abort t)
is_due-requesting [] t = refl
is_due-requesting (c ∷ calls) t = refl

-- However `request_terminate` and `terminate` are called, the child is killed once when one of them
-- has been, each task is aborted once when `terminate` has been, and neither is touched otherwise.
pub terminate_once :
    (h : ProcessHandle) (calls : List Call) (e : Effect)
    → times e (performed h calls).1 ≡ (if is_due calls e then owned h e else 0)
unfolding performed
terminate_once h [] e = refl
terminate_once h (terminating ∷ calls) e =
    simp
      (
        times-append,
        terminate-times h e,
        terminate_once (terminate h).0 calls e,
        terminate-owned h e,
        is_due-terminating calls e,
      )
      (ground arith)
terminate_once h (requesting ∷ calls) (kill k) =
    let once = request_terminate-times h k in
    let left = request_terminate-owned h k in
    simp (times-append, once.0, terminate_once (request_terminate h).0 calls (kill k), left.0)
      (ground arith)
terminate_once h (requesting ∷ calls) (abort t) =
    let once = request_terminate-times h t in
    let left = request_terminate-owned h t in
    simp
      (
        times-append,
        once.1,
        terminate_once (request_terminate h).0 calls (abort t),
        left.1,
        is_due-requesting calls t,
      )
      (ground arith)
