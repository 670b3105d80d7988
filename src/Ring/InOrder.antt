-- ===== src/Ring/InOrder.antt =====
-- src/engines/linux.rs: what a batch returns, however its completions come in.
use asynchstream.Base.{
  ℕ, ◌+◌, ◌<◌, ◌≡◌, refl, ◌∙◌, Bool, true, false, ◌==◌, Option, none, some, List, [], ◌∷◌, ℤ, pos,
  negsuc, arith,
}
use asynchstream.Exec.{Exec, Result, ok, err, too_deep, os_error, pure, continue, ◌>>=◌}
use asynchstream.Ring.{Sqe, IoUring, RingState, Thread, poll_completion_for_id, checked, collect}
use asynchstream.Ring.Completed.{Honest}
use asynchstream.Ring.Pushing.{AllOwed}
use asynchstream.Ring.Kernel.{Kernel}
use asynchstream.Ring.Waiting.{idle-small, owed, poll_completion_for_id-Polls}

-- The results of requests, in the order of the requests: the first that failed, or all of them.
abbrev pub outcome : {A : Type 0} → (ℕ → A) → ℤ → Result A
outcome f (pos n) = ok (f n)
outcome f (negsuc n) = err os_error

abbrev with_others : {A : Type 0} → Result A → Result (List A) → Result (List A)
with_others (ok a) (ok l) = ok (a ∷ l)
with_others (ok a) (err e) = err e
with_others (ok a) too_deep = too_deep
with_others (err e) r = err e
with_others too_deep r = too_deep

unfoldable pub in_order : {A : Type 0} → (ℕ → ℤ) → (ℕ → ℕ → A) → List ℕ → Result (List A)
in_order answer got [] = ok []
in_order answer got (id ∷ ids) =
    with_others (outcome (got id) (answer id)) (in_order answer got ids)

-- None of the numbers is `id`; no number is there twice.
unfoldable pub Absent : ℕ → List ℕ → Type 0
Absent id [] = Unit
Absent id (j ∷ js) = ((j == id) ≡ false) × Absent id js

unfoldable pub Distinct : List ℕ → Type 0
Distinct [] = Unit
Distinct (id ∷ ids) = Absent id ids × Distinct ids

abbrev pub thread : {K : Type 0} → ℕ → RingState K → Thread K
thread n s = record { thread_ring = some s; next_user_data = n }

module _ {K : Type 0} (io : IoUring K) (answer : ℕ → ℤ) (kernel : Kernel io answer) where
  -- The requests that the thread's ring has accepted so far, in their order.
  abbrev pub log_of : Option (RingState K) → List Sqe
  log_of none = []
  log_of (some s) = kernel.pushed s.ring

  abbrev pub accepted : Thread K → List Sqe
  accepted t = log_of t.thread_ring

  AllOwed-others :
      (s s' : RingState K) (id : ℕ) (ids : List ℕ)
      → ((i : ℕ)
          → (i == id) ≡ false
          → owed io answer kernel s i ≡ true
          → owed io answer kernel s' i ≡ true)
      → Absent id ids
      → AllOwed io answer kernel s ids
      → AllOwed io answer kernel s' ids
  unfolding AllOwed Absent
  AllOwed-others s s' id [] k a h = tt
  AllOwed-others s s' id (j ∷ js) k (a, as1) (o, h) = (k j a o, AllOwed-others s s' id js k as1 h)

  module _ {A : Type 0} (ring_size : Option ℕ) (got : ℕ → ℕ → A) (loop : Bool) where
    continue-others :
        (a : A) (r : Result (List A)) (t : Thread K)
        → (continue r (λ l. pure (a ∷ l)) loop t).0 ≡ with_others (ok a) r
    continue-others a (ok l) t = refl
    continue-others a (err e) t = refl
    continue-others a too_deep t = refl

    checked-others :
        (id : ℕ) (ans : ℤ) (rest : Exec (Thread K) (List A)) (t : Thread K) (r : Result (List A))
        → (rest loop t).0 ≡ r
        → ((checked (got id) ans >>= (λ a. rest >>= (λ l. pure (a ∷ l)))) loop t).0
          ≡ with_others (outcome (got id) ans) r
    checked-others id (pos n) rest t r e =
        continue-others (got id n) (rest loop t).0 (rest loop t).1 ∙ rw e refl
    checked-others id (negsuc n) rest t r e = refl

    checked-accepted :
        (id : ℕ) (ans : ℤ) (rest : Exec (Thread K) (List A)) (t : Thread K) (l : List Sqe)
        → accepted t ≡ l
        → accepted (rest loop t).1 ≡ l
        → accepted ((checked (got id) ans >>= (λ a. rest >>= (λ l. pure (a ∷ l)))) loop t).1 ≡ l
    checked-accepted id (pos n) rest t l e f = go (rest loop t).0 (rest loop t).1 f
      where
        go :
            (r : Result (List A)) (t' : Thread K)
            → accepted t' ≡ l
            → accepted (continue r (λ as1. pure (got id n ∷ as1)) loop t').1 ≡ l
        go (ok as1) t' h = h
        go (err x) t' h = h
        go too_deep t' h = h
    checked-accepted id (negsuc n) rest t l e f = e

    pub collect-in_order :
        (fuel n : ℕ) (s : RingState K) (ids : List ℕ)
        → Honest answer s.completed
        → AllOwed io answer kernel s ids
        → Distinct ids
        → kernel.count s.ring + 1 < fuel
        → let out = collect io ring_size fuel got ids loop (thread n s) in
          (out.0 ≡ in_order answer got ids) × (accepted out.1 ≡ kernel.pushed s.ring)
    unfolding collect in_order AllOwed Distinct
    collect-in_order fuel n s [] h o d f = (refl, refl)
    collect-in_order fuel n s (id ∷ ids) h (o, os) (a, d) f =
        let i = idle-small (io.completion s.ring).0 in
        let p = poll_completion_for_id-Polls io answer kernel loop fuel id s h o (omega arith) in
        let s' = (poll_completion_for_id io fuel id loop s).1 in
        let c = p.fewer in
        let (ih, l) =
          collect-in_order fuel n s' ids p.honest (AllOwed-others s s' id ids p.others a os) d
            (omega arith) in
        let rest = collect io ring_size fuel got ids in
        rw p.value (
          checked-others id (answer id) rest (thread n s') _ ih,
          checked-accepted id (answer id) rest (thread n s') _ p.log (l ∙ p.log),
        )
