-- ===== src/Examples/Chunks.antt =====
-- examples/07_scale_5000_files_benchmark.py: the chunks of a list of files, one after another.
use asynchstream.Base.{
  Bool, Bool-cases, ℕ, zero, suc, ◌+◌, ◌-◌, ◌≤◌, ◌<◌, ◌≡◌, ◌≢◌, refl, ap, sym, ◌∙◌, List, [], ◌∷◌,
  ◌++◌, map, length, take, ltb, arith, inl, inr,
}
use asynchstream.Exec.{Exec, ok, comprehension}
use asynchstream.Examples.{drop, slice, range_from}
use asynchstream.Examples.Gather.{Each, IsFresh, AreDistinct}

abbrev pub concat {ℓ} : {A : Type ℓ} → List (List A) → List A
concat [] = []
concat (xs ∷ xss) = xs ++ concat xss

module _ {ℓ} {A : Type ℓ} where
  drop-all : (n : ℕ) (xs : List A) → length xs ≤ n → drop n xs ≡ []
  drop-all zero [] h = refl
  drop-all zero (x ∷ xs) h = absurd (omega (arith, h))
  drop-all (suc n) [] h = refl
  drop-all (suc n) (x ∷ xs) h = drop-all n xs (omega (arith, h))

  take-drop : (k : ℕ) (xs : List A) → take k xs ++ drop k xs ≡ xs
  take-drop zero xs = refl
  take-drop (suc k) [] = refl
  take-drop (suc k) (x ∷ xs) = ap (λ l. x ∷ l) (take-drop k xs)

  drop-nil : (n : ℕ) → drop {A = A} n [] ≡ []
  drop-nil zero = refl
  drop-nil (suc n) = refl

  drop-add : (i k m : ℕ) (xs : List A) → m ≡ i + k → drop m xs ≡ drop k (drop i xs)
  drop-add zero k m xs h = ap (λ n. drop n xs) (omega (arith, h))
  drop-add (suc i) k m [] h = drop-nil m ∙ sym (drop-nil k)
  drop-add (suc i) k zero (x ∷ xs) h = absurd (omega (arith, h))
  drop-add (suc i) k (suc m) (x ∷ xs) h = drop-add i k m xs (omega (arith, h))

  slice-drop : (xs : List A) (i k : ℕ) → slice xs i (i + k) ++ drop (i + k) xs ≡ drop i xs
  slice-drop xs i k =
      let len : i + k - i ≡ k = omega arith in
      rw (drop-add i k (i + k) xs refl, len) (take-drop k (drop i xs))

  pub concat-slices :
      (xs : List A) (step fuel i : ℕ)
      → 0 < step
      → length xs ≤ i + fuel
      → concat (map (λ j. slice xs j (j + step)) (range_from fuel i (length xs) step)) ≡ drop i xs
  unfolding range_from
  concat-slices xs step zero i s h = sym (drop-all i xs (omega (arith, h)))
  concat-slices xs step (suc fuel) i s h = elim (Bool-cases (ltb i (length xs))) [
    | inl e ↦
        let rest = concat-slices xs step fuel (i + step) s (omega (arith, s, h)) in
        rw (e, rest) (slice-drop xs i step)
    | inr e ↦ rw e (sym (drop-all i xs (ground (arith, e))))
  ]

Each-append :
    (P : List ℕ → Type 0) (ps qs : List (List ℕ)) → Each P (ps ++ qs) → Each P ps × Each P qs
Each-append P [] qs h = (tt, h)
Each-append P (p ∷ ps) qs (x, h) = let (a, b) = Each-append P ps qs h in ((x, a), b)

pub Each-both :
    (P : List ℕ → Type 0) (ps qs : List (List ℕ)) → Each P ps → Each P qs → Each P (ps ++ qs)
Each-both P [] qs a b = b
Each-both P (p ∷ ps) qs (x, a) b = (x, Each-both P ps qs a b)

pub Each-map :
    (P Q R : List ℕ → Type 0) (ps : List (List ℕ))
    → ((p : List ℕ) → P p → Q p → R p)
    → Each P ps
    → Each Q ps
    → Each R ps
Each-map P Q R [] f a b = tt
Each-map P Q R (p ∷ ps) f (x, a) (y, b) = (f p x y, Each-map P Q R ps f a b)

-- Neither list has a path of the other.
pub AreDistinct-append :
    (ps qs : List (List ℕ))
    → AreDistinct (ps ++ qs)
    → AreDistinct ps × AreDistinct qs × Each (IsFresh qs) ps × Each (IsFresh ps) qs
AreDistinct-append [] qs d = (tt, d, tt, all_fresh qs)
  where
    all_fresh : (qs : List (List ℕ)) → Each (IsFresh []) qs
    all_fresh [] = tt
    all_fresh (q ∷ qs) = (tt, all_fresh qs)
AreDistinct-append (p ∷ ps) qs (f, d) =
    let (a, b, c, e) = AreDistinct-append ps qs d in
    let (f1, f2) = Each-append _ ps qs f in
    (
      (f1, a),
      b,
      (f2, c),
      Each-map (λ q. p ≢ q) (IsFresh ps) (IsFresh (p ∷ ps)) qs (λ q n g. ((λ e. n (sym e)), g)) f2
          e,
    )

-- A batch of work for each chunk of paths, in turn.
module _ {W A : Type 0} (loop : Bool) (batch : ℕ → Exec W (List A)) (chunk : ℕ → List (List ℕ))
    (value : List ℕ → A) (Ready Kept : W → List ℕ → Type 0) where
  abbrev pub Leaves : List (List ℕ) → W → W → Type 0
  Leaves ps w w' = (q : List ℕ) → IsFresh ps q → (Ready w q → Ready w' q) × (Kept w q → Kept w' q)

  -- A batch does its own chunk.
  pub record IsBatch : Type 0 where
    pub does :
        (i : ℕ) (w : W)
        → AreDistinct (chunk i)
        → Each (Ready w) (chunk i)
        → (w' : W) × (batch i loop w ≡ (ok (map value (chunk i)), w'))
          × Each (Kept w') (chunk i)
          × Leaves (chunk i) w w'

  abbrev all_paths : List ℕ → List (List ℕ)
  all_paths is = concat (map chunk is)

  pub batches-Each :
      IsBatch
      → (is : List ℕ) (w : W) → AreDistinct (all_paths is)
      → Each (Ready w) (all_paths is)
      → (xss : List (List A)) × (w' : W) × (comprehension batch is loop w ≡ (ok xss, w'))
        × (concat xss ≡ map value (all_paths is))
        × Each (Kept w') (all_paths is)
        × Leaves (all_paths is) w w'
  unfolding comprehension
  batches-Each b [] w d h = ([], w, refl, refl, tt, λ q f. (λ x. x, λ x. x))
  batches-Each b (i ∷ is) w d h =
      let ps = chunk i in
      let qs = all_paths is in
      let (dp, dq, fp, fq) = AreDistinct-append ps qs d in
      let (hp, hq) = Each-append (Ready w) ps qs h in
      let (w1, e, kept, leaves) = b.does i w dp hp in
      let ready = Each-map (IsFresh ps) (Ready w) (Ready w1) qs (λ q f. (leaves q f).0) fq hq in
      let (xss, w2, es, cs, kept2, leaves2) = batches-Each b is w1 dq ready in
      let kept1 = Each-map (IsFresh qs) (Kept w1) (Kept w2) ps (λ p f. (leaves2 p f).1) fp kept in
      (
        map value ps ∷ xss,
        w2,
        rw (e, es) refl,
        rw cs (map-append ps qs),
        Each-both (Kept w2) ps qs kept1 kept2,
        λ q f.
            let (f1, f2) = Each-append _ ps qs f in
            (λ x. (leaves2 q f2).0 ((leaves q f1).0 x), λ x. (leaves2 q f2).1 ((leaves q f1).1 x)),
      )
    where
      map-append : (ps qs : List (List ℕ)) → map value ps ++ map value qs ≡ map value (ps ++ qs)
      map-append [] qs = refl
      map-append (p ∷ ps) qs = ap (λ l. value p ∷ l) (map-append ps qs)
