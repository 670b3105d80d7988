-- ===== src/Ring/Completed.antt =====
-- src/engines/linux.rs: the map `completed`, from the number of a request to its result.
use asynchstream.Base.{
  ℕ, ◌≡◌, refl, inl, inr, false, ◌||◌, ◌==◌, Option, none, some, List, [], ◌∷◌, ℤ, is_some,
  if◌then◌else◌, arith, Bool-cases,
}

abbrev pub Completions : Type 0
Completions = List (ℕ × ℤ)

unfoldable pub lookup : ℕ → Completions → Option ℤ
lookup id [] = none
lookup id ((i, res) ∷ l) = if id == i then some res else lookup id l

unfoldable pub delete : ℕ → Completions → Completions
delete id [] = []
delete id ((i, res) ∷ l) = let rest = delete id l in if id == i then rest else (i, res) ∷ rest

-- The entries of the completion queue go into the map one after another.
unfoldable pub insert_all : Completions → Completions → Completions
insert_all [] l = l
insert_all (cqe ∷ cqes) l = insert_all cqes (cqe ∷ l)

-- Every result in the list is the one that its request has.
unfoldable pub Honest : (ℕ → ℤ) → Completions → Type 0
Honest answer [] = Unit
Honest answer ((i, res) ∷ l) = (res ≡ answer i) × Honest answer l

pub lookup-insert_all :
    (id : ℕ) (cqes l : Completions)
    → is_some (lookup id (insert_all cqes l)) ≡ (is_some (lookup id cqes) || is_some (lookup id l))
unfolding insert_all lookup
lookup-insert_all id [] l = refl
lookup-insert_all id ((i, res) ∷ cqes) l =
    let ih = lookup-insert_all id cqes ((i, res) ∷ l) in ground arith

pub lookup-delete :
    (i id : ℕ) (l : Completions) → (i == id) ≡ false → lookup i (delete id l) ≡ lookup i l
unfolding lookup delete
lookup-delete i id [] h = refl
lookup-delete i id ((j, res) ∷ l) h = let ih = lookup-delete i id l h in ground arith

lookup-delete_same : (id : ℕ) (l : Completions) → lookup id (delete id l) ≡ none
unfolding lookup delete
lookup-delete_same id [] = refl
lookup-delete_same id ((j, res) ∷ l) = let ih = lookup-delete_same id l in ground arith

module _ (answer : ℕ → ℤ) where
  pub lookup-Honest :
      (i : ℕ) (l : Completions) (res : ℤ) → Honest answer l → lookup i l ≡ some res → res ≡ answer i
  unfolding lookup Honest
  lookup-Honest i [] res h e = ground arith
  lookup-Honest i ((j, r) ∷ l) res (q, h) e = let ih = lookup-Honest i l res h in grind arith

  pub delete-Honest : (id : ℕ) (l : Completions) → Honest answer l → Honest answer (delete id l)
  unfolding delete Honest
  delete-Honest id [] h = tt
  delete-Honest id ((i, res) ∷ l) (q, h) = elim (Bool-cases (id == i)) [
    | inl t ↦ rw t (delete-Honest id l h)
    | inr f ↦ rw f (q, delete-Honest id l h)
  ]

  pub insert_all-Honest :
      (cqes l : Completions)
      → Honest answer cqes
      → Honest answer l
      → Honest answer (insert_all cqes l)
  unfolding insert_all Honest
  insert_all-Honest [] l hc h = h
  insert_all-Honest ((i, res) ∷ cqes) l (q, hc) h = insert_all-Honest cqes ((i, res) ∷ l) hc (q, h)
