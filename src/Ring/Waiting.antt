-- ===== src/Ring/Waiting.antt =====
-- src/engines/linux.rs: `poll_completion_for_id` returns, with the result of its own request.
use asynchstream.Base.{
  ℕ, zero, suc, ◌+◌, ◌≤◌, ◌<◌, ◌≡◌, refl, ◌∙◌, inl, inr, Bool, true, false, ◌||◌, ◌==◌, none, some,
  [], ◌∷◌, ℤ, is_some, arith, Option-cases, length,
}
use asynchstream.Exec.{Exec, Result, ok, err, is_ok, too_deep, ◌>>◌}
use asynchstream.Ring.{
  IoUring, RingState, poll_completion_for_id, take_result, drain, submit_some, wait_for,
}
use asynchstream.Ring.Kernel.{Kernel}
use asynchstream.Ring.Completed.{
  Completions, lookup, delete, Honest, lookup-Honest, delete-Honest, insert_all-Honest,
  lookup-insert_all, lookup-delete,
}

-- 1 where there is nothing to take.
abbrev pub idle : Completions → ℕ
idle [] = 1
idle (c ∷ l) = 0

pub is_ok-cases : {A : Type 0} (r : Result A) → is_ok r ≡ true → (a : A) × (r ≡ ok a)
is_ok-cases (ok a) h = (a, refl)
is_ok-cases (err e) h = cc
is_ok-cases too_deep h = cc

idle-length : (l : Completions) → 1 ≤ idle l + length l
idle-length [] = omega arith
idle-length (c ∷ l) = omega arith

pub idle-small : (l : Completions) → idle l ≤ 1
idle-small [] = omega arith
idle-small (c ∷ l) = omega arith

idle-some : (l : Completions) → 1 ≤ length l → idle l ≡ 0
idle-some [] h = omega arith
idle-some (c ∷ l) h = refl

module _ {K : Type 0} (io : IoUring K) (answer : ℕ → ℤ) (kernel : Kernel io answer) where
  -- The request is under way, or its result is kept.
  abbrev pub owed : RingState K → ℕ → Bool
  owed s i = is_some (lookup i s.completed) || kernel.pending s.ring i

  -- No request is lost from `s` to `s'`, and no more are under way.
  pub record Later (s s' : RingState K) : Type 0 where
    pub owes : (i : ℕ) → owed s i ≡ true → owed s' i ≡ true
    pub honest : Honest answer s.completed → Honest answer s'.completed
    pub fewer : kernel.count s'.ring ≤ kernel.count s.ring
    pub log : kernel.pushed s'.ring ≡ kernel.pushed s.ring

  Later-then : (s s1 s2 : RingState K) → Later s s1 → Later s1 s2 → Later s s2
  Later-then s s1 s2 a b = record {
    owes = λ i h. b.owes i (a.owes i h);
    honest = λ h. b.honest (a.honest h);
    fewer = let p = a.fewer in let q = b.fewer in omega arith;
    log = b.log ∙ a.log;
  }

  abbrev drained : RingState K → RingState K
  drained s = (drain io true s).1

  drain-Later : (s : RingState K) → Later s (drained s)
  drain-Later s =
      let l = (io.completion s.ring).0 in
      record {
        owes = λ i h.
            let e = lookup-insert_all i l s.completed in
            let p = kernel.completion-pending s.ring i in ground arith;
        honest = λ h. insert_all-Honest answer l s.completed (kernel.completion-Honest s.ring) h;
        fewer = let c = kernel.completion-count s.ring in omega arith;
        log = kernel.completion-pushed s.ring;
      }

  submit-Later : (s : RingState K) → Later s (submit_some io true s).1
  submit-Later s = record {
    owes = λ i h. let p = kernel.submit-pending s.ring i in ground arith;
    honest = λ h. h;
    fewer = let c = kernel.submit-count s.ring in omega arith;
    log = kernel.submit-pushed s.ring;
  }

  pub wait-Later : (n : ℕ) (s : RingState K) → Later s (wait_for io n true s).1
  wait-Later n s = record {
    owes = λ i h. let p = kernel.wait-pending n s.ring i in ground arith;
    honest = λ h. h;
    fewer = let c = kernel.wait-count n s.ring in omega arith;
    log = kernel.wait-pushed n s.ring;
  }

  -- A wait for `id` from `s` ends with its result, and touches no other request.
  pub record Polls (id : ℕ) (s : RingState K) (out : Result ℤ × RingState K) : Type 0 where
    pub value : out.0 ≡ ok (answer id)
    pub others : (i : ℕ) → (i == id) ≡ false → owed s i ≡ true → owed out.1 i ≡ true
    pub honest : Honest answer out.1.completed
    pub fewer : kernel.count out.1.ring ≤ kernel.count s.ring
    pub log : kernel.pushed out.1.ring ≡ kernel.pushed s.ring

  Later-Polls :
      (id : ℕ) (s s' : RingState K) (out : Result ℤ × RingState K)
      → Later s s'
      → Polls id s' out
      → Polls id s out
  Later-Polls id s s' out a p = record {
    value = p.value;
    others = λ i h o. p.others i h (a.owes i o);
    honest = p.honest;
    fewer = let x = a.fewer in let y = p.fewer in omega arith;
    log = p.log ∙ a.log;
  }

  remove-Polls :
      (id : ℕ) (s : RingState K) (res : ℤ)
      → lookup id s.completed ≡ some res
      → Honest answer s.completed
      → Polls id s (ok res, record s { completed = delete id s.completed })
  remove-Polls id s res e h = record {
    value = rw (lookup-Honest answer id s.completed res h e) refl;
    others = λ i ne o. rw (lookup-delete i id s.completed ne) o;
    honest = delete-Honest answer id s.completed h;
    fewer = let x = kernel.count s.ring in omega arith;
    log = refl;
  }

  module _ (loop : Bool) where
    take_result-Polls :
        (id : ℕ) (s : RingState K) (otherwise : Exec (RingState K) ℤ)
        → Honest answer s.completed
        → (lookup id s.completed ≡ none → Polls id s (otherwise loop s))
        → Polls id s (take_result io id otherwise loop s)
    take_result-Polls id s otherwise h k = elim (Option-cases (lookup id s.completed)) [
      | inl e ↦ rw e (k e)
      | inr (res, e) ↦ rw e (remove-Polls id s res e h)
    ]

    -- A wait returns, since the request is under way, and leaves something to take.
    wait_for-Polls :
        (id : ℕ) (s0 : RingState K) (again : Exec (RingState K) ℤ)
        → let s = drained s0 in
          owed s id ≡ true
          → lookup id s.completed ≡ none
          → let s' = (wait_for io 1 loop s).1 in
            (1 ≤ length (io.completion s'.ring).0 → Polls id s' (again loop s'))
            → Polls id s ((wait_for io 1 >> again) loop s)
    wait_for-Polls id s0 again o e k =
        let s = drained s0 in
        let (r, l) = kernel.wait-reaped s0.ring (kernel.pending-count s.ring id (rw e at o)) in
        let (n, q) = is_ok-cases (io.submit_and_wait 1 s.ring).0 r in
        rw q (Later-Polls id s (wait_for io 1 loop s).1 _ (wait-Later 1 s) (k l))

    abbrev submitted : RingState K → RingState K
    submitted s = drained (submit_some io loop s).1

    submitted-Later : (s : RingState K) → Later s (submitted s)
    submitted-Later s =
        let s' = (submit_some io loop s).1 in
        Later-then s s' (drained s') (submit-Later s) (drain-Later s')

    -- A turn takes at least one completion, but for the first.
    turns :
        (fuel : ℕ) (s : RingState K)
        → let s3 = (wait_for io 1 loop (submitted (drained s))).1 in
          1 ≤ length (io.completion s3.ring).0
          → kernel.count s.ring + idle (io.completion s.ring).0 < suc fuel
          → kernel.count s3.ring + idle (io.completion s3.ring).0 < fuel
    turns fuel s l f =
        let s2 = submitted (drained s) in
        let a = idle-length (io.completion s.ring).0 in
        let b = idle-some (io.completion (wait_for io 1 loop s2).1.ring).0 l in
        let c = kernel.completion-count s.ring in
        let d = (submitted-Later (drained s)).fewer in
        let e = kernel.wait-count 1 s2.ring in omega arith

    -- For a kernel that keeps what io_uring documents, is not interrupted, and has one result for every
    -- request, on a ring that keeps only true results, and for a request that is under way or whose result is
    -- kept, given more fuel than there are requests under way, and one more where there is nothing to take:
    -- `poll_completion_for_id` returns the result of that request, loses no other request, and keeps only true
    -- results.
    pub poll_completion_for_id-Polls :
        (fuel id : ℕ) (s : RingState K)
        → Honest answer s.completed
        → owed s id ≡ true
        → kernel.count s.ring + idle (io.completion s.ring).0 < fuel
        → Polls id s (poll_completion_for_id io fuel id loop s)
    unfolding poll_completion_for_id
    poll_completion_for_id-Polls zero id s h o f = ground arith
    poll_completion_for_id-Polls (suc fuel) id s h o f =
        let again = poll_completion_for_id io fuel id in
        let s1 = drained s in
        let s2 = submitted s1 in
        let s3 = (wait_for io 1 loop s2).1 in
        let l1 = drain-Later s in
        let l2 = submitted-Later s1 in
        let l3 = wait-Later 1 s2 in
        let h1 = l1.honest h in
        let h2 = l2.honest h1 in
        let o2 = l2.owes id (l1.owes id o) in
        take_result-Polls id s _ h (λ e. Later-Polls id s s1 _ l1 (
          take_result-Polls id s1 _ h1 (λ e1. Later-Polls id s1 s2 _ l2 (
            take_result-Polls id s2 _ h2 (λ e2.
              wait_for-Polls id (submit_some io loop s1).1 again o2 e2 (λ l.
                poll_completion_for_id-Polls fuel id s3 (l3.honest h2) (l3.owes id o2)
                  (turns fuel s l f)))))))
