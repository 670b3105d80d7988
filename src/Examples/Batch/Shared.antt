-- ===== src/Examples/Batch/Shared.antt =====
-- examples/01_sync_and_async_file_io.py: one operation done often on a shared file, in any order.
use mathlib.Core.Path.{subst}
use asynchstream.Base.{
  Bool, ℕ, zero, suc, ◌+◌, ◌≤◌, ◌<◌, ◌≡◌, refl, ◌∙◌, Option, none, some, List, [], ◌∷◌, length,
  arith,
}
use asynchstream.Exec.{Exec, ok, comprehension}
use asynchstream.Examples.{Gather}
use asynchstream.Examples.Gather.{IsGather, turn, turns, results, bump, turns_had}
use asynchstream.Examples.Batch.{repeat, go_on}

-- What holds of the world while `n` more operations are to be done.
module _ {W A : Type 0} (loop : Bool) (op : Exec W A) (v : A) (Left : ℕ → W → Type 0) where
  pub record IsRepeatable : Type 0 where
    pub does : (n : ℕ) (w : W) → Left (suc n) w → (w' : W) × (op loop w ≡ (ok v, w')) × Left n w'

  module _ (r : IsRepeatable) where
    pub comprehension-repeat :
        {X : Type 0} (h : X → Exec W A) (x : X)
        → h x ≡ op
        → (n : ℕ) (w : W) → Left n w
        → (w' : W) × (comprehension h (repeat n x) loop w ≡ (ok (repeat n v), w')) × Left 0 w'
    unfolding comprehension
    comprehension-repeat h x e zero w l = (w, refl, l)
    comprehension-repeat h x e (suc n) w l =
        let (w1, r1, l1) = r.does n w l in
        let (w2, r2, l2) = comprehension-repeat h x e n w1 l1 in (w2, rw (e, r1, r2) refl, l2)

    abbrev waiting : List (Option A) → ℕ
    waiting [] = 0
    waiting (none ∷ ss) = suc (waiting ss)
    waiting (some a ∷ ss) = waiting ss

    -- An operation that has had a turn is done.
    abbrev Track : List (Option A) → (ℕ → ℕ) → Type 0
    Track [] c = Unit
    Track (none ∷ ss) c = (c 0 ≡ 0) × Track ss (λ i. c (suc i))
    Track (some a ∷ ss) c = (a ≡ v) × Track ss (λ i. c (suc i))

    move : (m n : ℕ) (w : W) → m ≡ n → Left m w → Left n w
    move m n w e l = subst (λ k. Left k w) e l

    turn-Track :
        (i k : ℕ) (w : W) (ss : List (Option A)) (c : ℕ → ℕ)
        → Track ss c
        → Left (k + waiting ss) w
        → (ts : List (Option A)) × (w' : W) × (turn (go_on op) i ss loop w ≡ (ok ts, w'))
          × Track ts (bump i c)
          × Left (k + waiting ts) w'
          × (length ts ≡ length ss)
    unfolding turn
    turn-Track i k w [] c t l = ([], w, refl, tt, l, refl)
    turn-Track zero k w (none ∷ ss) c (e, t) l =
        let l' = move (k + suc (waiting ss)) (suc (k + waiting ss)) w (omega arith) l in
        let (w', q, l1) = r.does (k + waiting ss) w l' in
        (some v ∷ ss, w', rw q refl, (refl, t), l1, refl)
    turn-Track zero k w (some a ∷ ss) c (e, t) l = (some a ∷ ss, w, refl, (e, t), l, refl)
    turn-Track (suc i) k w (none ∷ ss) c (e, t) l =
        let l' = move (k + suc (waiting ss)) (suc k + waiting ss) w (omega arith) l in
        let (ts, w', q, t', l1, len) = turn-Track i (suc k) w ss _ t l' in
        (
          none ∷ ts,
          w',
          rw q refl,
          (e, t'),
          move (suc k + waiting ts) (k + suc (waiting ts)) w' (omega arith) l1,
          omega (arith, len),
        )
    turn-Track (suc i) k w (some a ∷ ss) c (e, t) l =
        let (ts, w', q, t', l1, len) = turn-Track i k w ss _ t l in
        (some a ∷ ts, w', rw q refl, (e, t'), l1, omega (arith, len))

    turns-Track :
        (schedule : List ℕ) (w : W) (ss : List (Option A)) (c : ℕ → ℕ)
        → Track ss c
        → Left (0 + waiting ss) w
        → (ts : List (Option A)) × (w' : W) × (turns (go_on op) (λ s. s) schedule ss loop w
            ≡ (ok ts, w'))
          × Track ts (turns_had schedule c)
          × Left (0 + waiting ts) w'
          × (length ts ≡ length ss)
    unfolding turns
    turns-Track [] w ss c t l = (ss, w, refl, t, l, refl)
    turns-Track (i ∷ is) w ss c t l =
        let (ts, w1, e, t1, l1, n1) = turn-Track i 0 w ss c t l in
        let (us, w2, e2, t2, l2, n2) = turns-Track is w1 ts (bump i c) t1 l1 in
        (us, w2, rw (e, e2) refl, t2, l2, n2 ∙ n1)

    results-Track :
        (w : W) (ss : List (Option A)) (c : ℕ → ℕ)
        → Track ss c
        → ((i : ℕ) → i < length ss → 1 ≤ c i)
        → (results (go_on op) (λ s. s) ss loop w ≡ (ok (repeat (length ss) v), w))
          × (waiting ss ≡ 0)
    unfolding results
    results-Track w [] c t h = (refl, refl)
    results-Track w (none ∷ ss) c (e, t) h = absurd (omega (arith, e, h 0 (omega arith)))
    results-Track w (some a ∷ ss) c (e, t) h =
        let (es, n) = results-Track w ss _ t (λ i l. h (suc i) (omega (arith, l))) in
        (rw (e, es) refl, n)

    none-Track : (n : ℕ) → Track (repeat n none) (λ i. 0) × (waiting (repeat n none) ≡ n)
    none-Track zero = (tt, refl)
    none-Track (suc n) = let (t, e) = none-Track n in ((refl, t), omega (arith, e))

    length-repeat : (n : ℕ) → length (repeat {A = Option A} n none) ≡ n
    length-repeat zero = refl
    length-repeat (suc n) = omega (arith, length-repeat n)

    pub gather-repeat :
        (gather : Gather W)
        → IsGather 1 gather
        → (n : ℕ) (w : W) → Left n w
        → (w' : W) × (gather (Option A) A (go_on op) (λ s. s) (repeat n none) loop w
            ≡ (ok (repeat n v), w'))
          × Left 0 w'
    gather-repeat gather g n w l =
        let (schedule, enough, e) = g.interleaves (go_on op) (λ s. s) (repeat n none) loop w in
        let (t0, w0) = none-Track n in
        let l0 = move n (0 + waiting (repeat n none)) w (omega (arith, w0)) l in
        let (ts, w', q, t, l1, len) = turns-Track schedule w (repeat n none) (λ i. 0) t0 l0 in
        let (rs, z) = results-Track w' ts _ t (λ i h. enough i (omega (arith, h, len))) in
        let all : length ts ≡ n = len ∙ length-repeat n in
        (
          w',
          rw (e, q)
              (subst (λ m. results (go_on op) (λ s. s) ts loop w' ≡ (ok (repeat m v), w')) all rs),
          move (0 + waiting ts) 0 w' (omega (arith, z)) l1,
        )
