-- ===== src/Exec/Lists.antt =====
-- Laws of list comprehensions whose items may raise.
use asynchstream.Base.{◌≡◌, Bool, List, [], ◌∷◌, ◌++◌, length, arith}
use asynchstream.Exec.{Exec, ok, pure, comprehension, ◌>>=◌}

module _ {ℓ} {W A B : Type ℓ} (f : A → Exec W B) where
  -- Two lists, one after the other.
  abbrev pub in_turn : List A → List A → Exec W (List B)
  in_turn xs ys = do us ← comprehension f xs; vs ← comprehension f ys; pure (us ++ vs)

  abbrev Splits : List A → List A → Type ℓ
  Splits xs ys = (loop : Bool) (w : W) → comprehension f (xs ++ ys) loop w ≡ in_turn xs ys loop w

  pub comprehension-append : (xs ys : List A) → Splits xs ys
  unfolding comprehension
  comprehension-append [] ys loop w = ground arith
  comprehension-append (x ∷ xs) ys loop w =
      ground (arith, comprehension-append xs ys loop (f x loop w).1)

  pub length-comprehension :
      (xs : List A) (loop : Bool) (w w' : W) (ys : List B)
      → comprehension f xs loop w ≡ (ok ys, w')
      → length ys ≡ length xs
  unfolding comprehension
  length-comprehension [] loop w w' ys h = ground arith
  length-comprehension (x ∷ xs) loop w w' [] h = ground arith
  length-comprehension (x ∷ xs) loop w w' (y ∷ ys) h =
      let w1 = (f x loop w).1 in
      ground (arith, length-comprehension xs loop w1 (comprehension f xs loop w1).1 ys)
