-- ===== src/Tests/Examples.antt =====
-- The theorem on the benchmark, at a store of files and five files, in chunks of two.
use asynchstream.Base.{
  ℕ, zero, suc, ◌≤◌, ◌<◌, ◌≡◌, refl, Bool, true, false, ◌==◌, ◌&&◌, some, List, [], ◌∷◌, ◌++◌, map,
  length, arith, if◌then◌else◌,
}
use asynchstream.Exec.{Exec, ok, pure, ◌>>=◌}
use asynchstream.Object.{Chunk, bytes, str, Stream, empty}
use asynchstream.Examples.{Gather}
use asynchstream.Examples.Gather.{IsGather, bump, turns_had, turns, results}

-- What each file holds.
abbrev Store : Type 0
Store = List ℕ → List ℕ

same : List ℕ → List ℕ → Bool
same [] [] = true
same [] (y ∷ ys) = false
same (x ∷ xs) [] = false
same (x ∷ xs) (y ∷ ys) = x == y && same xs ys

set : List ℕ → List ℕ → Store → Store
set p v w q = if same p q then v else w q

append_to : List ℕ → Chunk → Exec Store ℕ
append_to p (bytes l) loop w = (ok (length l), set p (w p ++ l) w)
append_to p (str l) loop w = (ok 0, w)

abbrev stream : List ℕ → Stream Store
stream p = record empty {
  read = some (λ size loop w. (ok (bytes (w p)), w));
  aread = some (λ size loop w. (ok (bytes (w p)), w));
  write = some (append_to p);
  awrite = some (append_to p);
  flush = some (pure tt);
  aflush = some (pure tt);
  close = some (pure tt);
}

-- `open` with the mode w+b empties the file.
open_store : List ℕ → List ℕ → Exec Store (Stream Store)
open_store p [] loop w = (ok (stream p), w)
open_store p (m ∷ mode) loop w = (ok (stream p), if m == b'w' then set p [] w else w)

abbrev Holds : Store → Stream Store → List ℕ → List ℕ → Type 0
Holds w f p c = (f ≡ stream p) × (w p ≡ c)

abbrev Saved : Store → List ℕ → List ℕ → Type 0
Saved w p c = w p ≡ c

-- The first coroutine has two turns before all the others and two after them, and so on.
abbrev nested : ℕ → List ℕ
nested zero = []
nested (suc n) = 0 ∷ 0 ∷ (map suc (nested n) ++ (0 ∷ 0 ∷ []))

turns_had-append :
    (is js : List ℕ) (c : ℕ → ℕ) → turns_had (is ++ js) c ≡ turns_had js (turns_had is c)
turns_had-append [] js c = refl
turns_had-append (i ∷ is) js c = turns_had-append is js (bump i c)

turns_had-zero : (is : List ℕ) (c : ℕ → ℕ) → turns_had (map suc is) c 0 ≡ c 0
turns_had-zero [] c = refl
turns_had-zero (i ∷ is) c = turns_had-zero is (bump (suc i) c)

turns_had-suc :
    (is : List ℕ) (c : ℕ → ℕ) (j : ℕ)
    → turns_had (map suc is) c (suc j) ≡ turns_had is (λ n. c (suc n)) j
turns_had-suc [] c j = refl
turns_had-suc (i ∷ is) c j = turns_had-suc is (bump (suc i) c) j

nested-enough : (n i : ℕ) → i < n → 4 ≤ turns_had (nested n) (λ j. 0) i
nested-enough zero i h = absurd (omega (arith, h))
nested-enough (suc n) zero h =
    rw (turns_had-append (map suc (nested n)) (0 ∷ 0 ∷ []) (bump 0 (bump 0 (λ j. 0))))
      (rw (turns_had-zero (nested n) (bump 0 (bump 0 (λ j. 0)))) (omega arith))
nested-enough (suc n) (suc i) h =
    rw (turns_had-append (map suc (nested n)) (0 ∷ 0 ∷ []) (bump 0 (bump 0 (λ j. 0)))) (
      rw (turns_had-suc (nested n) (bump 0 (bump 0 (λ j. 0))) i)
        (nested-enough n i (omega (arith, h))))

abbrev pub nested_gather : {W : Type 0} → Gather W
nested_gather S A step result ss = do
  ts ← turns step result (nested (length ss)) ss
  results step result ts

pub nested_gather-IsGather : {W : Type 0} (n : ℕ) → n ≤ 4 → IsGather {W = W} n nested_gather
nested_gather-IsGather n h = record {
  interleaves = λ step result ss loop w.
      (nested (length ss), λ i l. omega (arith, h, nested-enough (length ss) i l), refl);
}

abbrev async_names : List (List ℕ)
async_names = (97 ∷ []) ∷ (98 ∷ []) ∷ (99 ∷ []) ∷ []

abbrev sync_names : List (List ℕ)
sync_names = (100 ∷ []) ∷ (101 ∷ []) ∷ []

first_letter : List ℕ → ℕ
first_letter [] = 0
first_letter (x ∷ xs) = x
