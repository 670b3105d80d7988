-- ===== src/Examples/Gather.antt =====
-- examples/07_scale_5000_files_benchmark.py: coroutines that run in turns, in any order.
use asynchstream.Base.{
  Bool, ℕ, zero, suc, ◌≤◌, ◌<◌, ◌≡◌, ◌≢◌, refl, sym, List, [], ◌∷◌, map, length, arith, Option,
  none, some,
}
use asynchstream.Exec.{Exec, ok, pure, give_up, ◌>>=◌}
use asynchstream.Examples.{Gather}

-- Every one of the paths has the property.
abbrev pub Each : (List ℕ → Type 0) → List (List ℕ) → Type 0
Each P [] = Unit
Each P (p ∷ ps) = P p × Each P ps

abbrev pub IsFresh : List (List ℕ) → List ℕ → Type 0
IsFresh ps q = Each (λ p. q ≢ p) ps

abbrev pub AreDistinct : List (List ℕ) → Type 0
AreDistinct [] = Unit
AreDistinct (p ∷ ps) = IsFresh ps p × AreDistinct ps

-- Coroutine `i` goes on to its next await.
unfoldable pub turn : {W S : Type 0} → (S → Exec W S) → ℕ → List S → Exec W (List S)
turn step i [] = pure []
turn step zero (s ∷ ss) = do t ← step s; pure (t ∷ ss)
turn step (suc i) (s ∷ ss) = do ts ← turn step i ss; pure (s ∷ ts)

module _ {W S A : Type 0} (step : S → Exec W S) (result : S → Option A) where
  -- The coroutines go on in the order of the schedule.
  unfoldable pub turns : List ℕ → List S → Exec W (List S)
  turns [] ss = pure ss
  turns (i ∷ is) ss = do ts ← turn step i ss; turns is ts

  abbrev or_unfinished : Option A → Exec W A
  or_unfinished none = give_up
  or_unfinished (some a) = pure a

  unfoldable pub results : List S → Exec W (List A)
  results [] = pure []
  results (s ∷ ss) = do a ← or_unfinished (result s); xs ← results ss; pure (a ∷ xs)

-- The turns that each coroutine has had, with one more for coroutine `i`.
abbrev pub bump : ℕ → (ℕ → ℕ) → ℕ → ℕ
bump zero c zero = suc (c zero)
bump zero c (suc j) = c (suc j)
bump (suc i) c zero = c zero
bump (suc i) c (suc j) = bump i (λ n. c (suc n)) j

abbrev pub turns_had : List ℕ → (ℕ → ℕ) → ℕ → ℕ
turns_had [] c = c
turns_had (i ∷ is) c = turns_had is (bump i c)

-- `gather` lets the coroutines go on in some order, in which each has at least `n` turns, and returns
-- their results in the order of the coroutines.
pub record IsGather {W : Type 0} (n : ℕ) (gather : Gather W) : Type 1 where
  pub interleaves :
      {S A : Type 0} (step : S → Exec W S) (result : S → Option A) (ss : List S) (loop : Bool)
      (w : W)
      → (schedule : List ℕ) × ((i : ℕ) → i < length ss → n ≤ turns_had schedule (λ j. 0) i)
        × (gather S A step result ss loop w
            ≡ (do ts ← turns step result schedule ss; results step result ts) loop w)

module _ {W S : Type 0} (Inv : W → List ℕ → S → ℕ → Type 0) (Kept : W → List ℕ → Type 0) where
  -- What other paths are known for stays so.
  abbrev pub Spares : List (List ℕ) → W → W → Type 0
  Spares ps w w' =
      (q : List ℕ)
      → IsFresh ps q
      → ((s : S) (k : ℕ) → Inv w q s k → Inv w' q s k) × (Kept w q → Kept w' q)

  Spares-refl : (ps : List (List ℕ)) (w : W) → Spares ps w w
  Spares-refl ps w q f = (λ s k h. h, λ h. h)

  Spares-trans :
      (ps : List (List ℕ)) (w w1 w2 : W) → Spares ps w w1 → Spares ps w1 w2 → Spares ps w w2
  Spares-trans ps w w1 w2 a b q f =
      (λ s k h. (b q f).0 s k ((a q f).0 s k h), λ h. (b q f).1 ((a q f).1 h))

  -- Each coroutine stands where its turns have brought it.
  abbrev Track : W → List (List ℕ) → List S → (ℕ → ℕ) → Type 0
  Track w [] [] c = Unit
  Track w [] (s ∷ ss) c = ⊥
  Track w (p ∷ ps) [] c = ⊥
  Track w (p ∷ ps) (s ∷ ss) c = Inv w p s (c 0) × Track w ps ss (λ i. c (suc i))

  Track-spared :
      (w w' : W) (p : List ℕ) (ps : List (List ℕ)) (ss : List S) (c : ℕ → ℕ)
      → Spares (p ∷ []) w w'
      → IsFresh ps p
      → Track w ps ss c
      → Track w' ps ss c
  Track-spared w w' p [] [] c h f t = tt
  Track-spared w w' p [] (s ∷ ss) c h f t = absurd t
  Track-spared w w' p (q ∷ ps) [] c h f t = absurd t
  Track-spared w w' p (q ∷ ps) (s ∷ ss) c h (n, f) (i, t) =
      ((h q ((λ e. n (sym e)), tt)).0 s (c 0) i, Track-spared w w' p ps ss _ h f t)

module _ {W S A : Type 0} (step : S → Exec W S) (result : S → Option A) (loop : Bool)
    (Inv : W → List ℕ → S → ℕ → Type 0) (Kept : W → List ℕ → Type 0) where
  -- Every turn succeeds and moves its own coroutine on.
  pub record IsProgress : Type 0 where
    pub goes_on :
        (w : W) (p : List ℕ) (s : S) (k : ℕ)
        → Inv w p s k
        → (s' : S) × (w' : W) × (step s loop w ≡ (ok s', w'))
          × Inv w' p s' (suc k)
          × Spares Inv Kept (p ∷ []) w w'

  module _ (progress : IsProgress) where
    turn-Track :
        (i : ℕ) (w : W) (ps : List (List ℕ)) (ss : List S) (c : ℕ → ℕ)
        → AreDistinct ps
        → Track Inv Kept w ps ss c
        → (ts : List S) × (w' : W) × (turn step i ss loop w ≡ (ok ts, w'))
          × Track Inv Kept w' ps ts (bump i c)
          × Spares Inv Kept ps w w'
    unfolding turn
    turn-Track i w [] [] c d t = ([], w, refl, tt, Spares-refl Inv Kept [] w)
    turn-Track i w [] (s ∷ ss) c d t = absurd t
    turn-Track i w (p ∷ ps) [] c d t = absurd t
    turn-Track zero w (p ∷ ps) (s ∷ ss) c (f, d) (inv, t) =
        let (s', w', e, inv', h) = progress.goes_on w p s (c 0) inv in
        (
          s' ∷ ss,
          w',
          rw e refl,
          (inv', Track-spared Inv Kept w w' p ps ss _ h f t),
          λ q g. h q (g.0, tt),
        )
    turn-Track (suc i) w (p ∷ ps) (s ∷ ss) c (f, d) (inv, t) =
        let (ts, w', e, t', h) = turn-Track i w ps ss _ d t in
        (s ∷ ts, w', rw e refl, ((h p f).0 s (c 0) inv, t'), λ q g. h q g.1)

    turns-Track :
        (schedule : List ℕ) (w : W) (ps : List (List ℕ)) (ss : List S) (c : ℕ → ℕ)
        → AreDistinct ps
        → Track Inv Kept w ps ss c
        → (ts : List S) × (w' : W) × (turns step result schedule ss loop w ≡ (ok ts, w'))
          × Track Inv Kept w' ps ts (turns_had schedule c)
          × Spares Inv Kept ps w w'
    unfolding turns
    turns-Track [] w ps ss c d t = (ss, w, refl, t, Spares-refl Inv Kept ps w)
    turns-Track (i ∷ is) w ps ss c d t =
        let (ts, w1, e, t1, h1) = turn-Track i w ps ss c d t in
        let (us, w2, e2, t2, h2) = turns-Track is w1 ps ts (bump i c) d t1 in
        (us, w2, rw (e, e2) refl, t2, Spares-trans Inv Kept ps w w1 w2 h1 h2)

    module _ (n : ℕ) (value : List ℕ → A) (start : List ℕ → S)
        (ends : (w : W) (p : List ℕ) (s : S) (k : ℕ)
          → Inv w p s k
          → n ≤ k
          → (result s ≡ some (value p)) × Kept w p) where
      results-Track :
          (w : W) (ps : List (List ℕ)) (ss : List S) (c : ℕ → ℕ)
          → Track Inv Kept w ps ss c
          → ((i : ℕ) → i < length ps → n ≤ c i)
          → (results step result ss loop w ≡ (ok (map value ps), w)) × Each (Kept w) ps
      unfolding results
      results-Track w [] [] c t h = (refl, tt)
      results-Track w [] (s ∷ ss) c t h = absurd t
      results-Track w (p ∷ ps) [] c t h = absurd t
      results-Track w (p ∷ ps) (s ∷ ss) c (inv, t) h =
          let (e, kept) = ends w p s (c 0) inv (h 0 (omega arith)) in
          let (es, all_kept) = results-Track w ps ss _ t (λ i l. h (suc i) (omega (arith, l))) in
          (rw (e, es) refl, (kept, all_kept))

      length-start : (ps : List (List ℕ)) → length (map start ps) ≡ length ps
      length-start [] = refl
      length-start (p ∷ ps) = omega (arith, length-start ps)

      start-Track :
          (w : W) (ps : List (List ℕ))
          → Each (λ p. Inv w p (start p) 0) ps
          → Track Inv Kept w ps (map start ps) (λ i. 0)
      start-Track w [] h = tt
      start-Track w (p ∷ ps) (i, h) = (i, start-Track w ps h)

      pub gather-Each :
          (gather : Gather W)
          → IsGather n gather
          → (w : W) (ps : List (List ℕ)) → AreDistinct ps
          → Each (λ p. Inv w p (start p) 0) ps
          → (w' : W) × (gather S A step result (map start ps) loop w ≡ (ok (map value ps), w'))
            × Each (Kept w') ps
            × Spares Inv Kept ps w w'
      gather-Each gather g w ps d h =
          let (schedule, enough, e) = g.interleaves step result (map start ps) loop w in
          let (ts, w', r, t, spares) =
            turns-Track schedule w ps (map start ps) (λ i. 0) d (start-Track w ps h) in
          let (rs, kept) =
            results-Track w' ps ts _ t (λ i l. enough i (omega (arith, l, length-start ps))) in
          (w', rw (e, r) rs, kept, spares)
