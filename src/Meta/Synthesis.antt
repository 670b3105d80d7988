-- ===== src/Meta/Synthesis.antt =====
-- What the metaclass of py_native_io/base.py makes of a class body: which names it adds.
use asynchstream.Base.{◌≡◌, Bool, true, false, not, ◌&&◌, ◌||◌, Option, none, some, List, [], ◌∷◌}
use asynchstream.Base.{◌++◌, ℤ, ℕ, is_some, arith}
use asynchstream.Exec.{Exec}
use asynchstream.Object.{Chunk, Spec, Method, Namespace, inherit}
use asynchstream.Meta.{
  AsyncName, aread, aread_batch, awrite, awrite_batch, aclose, aflush, has, Built, new_class,
  synth_aread, synth_aread_batch, synth_awrite, synth_awrite_batch, synth_aclose, synth_aflush,
}

abbrev pub same_name : AsyncName → AsyncName → Bool
same_name aread aread = true
same_name aread_batch aread_batch = true
same_name awrite awrite = true
same_name awrite_batch awrite_batch = true
same_name aclose aclose = true
same_name aflush aflush = true
same_name _ _ = false

abbrev pub listed : AsyncName → List AsyncName → Bool
listed a [] = false
listed a (b ∷ l) = same_name a b || listed a l

-- The name in a class body for whose sake the metaclass may add another.
abbrev pub has_source : {W : Type 0} → AsyncName → Namespace W → Bool
has_source aread ns = is_some ns.read
has_source aread_batch ns = is_some ns.aread
has_source awrite ns = is_some ns.write
has_source awrite_batch ns = is_some ns.awrite
has_source aclose ns = is_some ns.close
has_source aflush ns = is_some ns.flush

listed-append :
    (a x : AsyncName) (l : List AsyncName)
    → listed a (l ++ (x ∷ [])) ≡ (listed a l || same_name a x)
listed-append a x [] = ground arith
listed-append a x (y ∷ l) = ground (arith, listed-append a x l)

-- `c` is `b` with the name `x` added if `fires`.
record Adds {W : Type 0} (x : AsyncName) (fires : Bool) (b c : Built W) : Type 0 where
  has_lem : (a : AsyncName) → has a c.cls ≡ (has a b.cls || (same_name a x && fires))
  listed_lem :
      (a : AsyncName)
      → listed a c.synthesized ≡ (listed a b.synthesized || (same_name a x && fires))

Adds-refl : {W : Type 0} (x : AsyncName) (b : Built W) → Adds x false b b
Adds-refl x b = record { has_lem = λ a. ground arith; listed_lem = λ a. ground arith }

abbrev fires {ℓ κ} : {A : Type ℓ} {B : Type κ} → Option A → Option B → Bool
fires s o = is_some s && not (is_some o)

module _ {W : Type 0} (b : Built W) where
  synth_aread-Adds :
      (s : Option (Method W (ℤ → Exec W Chunk))) (o : Option (Method W (ℤ → Exec W Chunk)))
      → Adds aread (fires s o) b (synth_aread s o b)
  unfolding synth_aread
  synth_aread-Adds (some r) none = record {
    has_lem = λ a. ground arith;
    listed_lem = λ a. ground (arith, listed-append a aread b.synthesized);
  }
  synth_aread-Adds (some r) (some o) = Adds-refl aread b
  synth_aread-Adds none o = Adds-refl aread b

  synth_aread_batch-Adds :
      (s : Option (Method W (ℤ → Exec W Chunk)))
      (o : Option (Method W (List Spec → Exec W (List Chunk))))
      → Adds aread_batch (fires s o) b (synth_aread_batch s o b)
  unfolding synth_aread_batch
  synth_aread_batch-Adds (some r) none = record {
    has_lem = λ a. ground arith;
    listed_lem = λ a. ground (arith, listed-append a aread_batch b.synthesized);
  }
  synth_aread_batch-Adds (some r) (some o) = Adds-refl aread_batch b
  synth_aread_batch-Adds none o = Adds-refl aread_batch b

  synth_awrite-Adds :
      (s : Option (Method W (Chunk → Exec W ℕ))) (o : Option (Method W (Chunk → Exec W ℕ)))
      → Adds awrite (fires s o) b (synth_awrite s o b)
  unfolding synth_awrite
  synth_awrite-Adds (some r) none = record {
    has_lem = λ a. ground arith;
    listed_lem = λ a. ground (arith, listed-append a awrite b.synthesized);
  }
  synth_awrite-Adds (some r) (some o) = Adds-refl awrite b
  synth_awrite-Adds none o = Adds-refl awrite b

  synth_awrite_batch-Adds :
      (s : Option (Method W (Chunk → Exec W ℕ)))
      (o : Option (Method W (List Chunk → Exec W (List ℕ))))
      → Adds awrite_batch (fires s o) b (synth_awrite_batch s o b)
  unfolding synth_awrite_batch
  synth_awrite_batch-Adds (some r) none = record {
    has_lem = λ a. ground arith;
    listed_lem = λ a. ground (arith, listed-append a awrite_batch b.synthesized);
  }
  synth_awrite_batch-Adds (some r) (some o) = Adds-refl awrite_batch b
  synth_awrite_batch-Adds none o = Adds-refl awrite_batch b

  synth_aclose-Adds :
      (s : Option (Method W (Exec W Unit))) (o : Option (Method W (Exec W Unit)))
      → Adds aclose (fires s o) b (synth_aclose s o b)
  unfolding synth_aclose
  synth_aclose-Adds (some r) none = record {
    has_lem = λ a. ground arith;
    listed_lem = λ a. ground (arith, listed-append a aclose b.synthesized);
  }
  synth_aclose-Adds (some r) (some o) = Adds-refl aclose b
  synth_aclose-Adds none o = Adds-refl aclose b

  synth_aflush-Adds :
      (s : Option (Method W (Exec W Unit))) (o : Option (Method W (Exec W Unit)))
      → Adds aflush (fires s o) b (synth_aflush s o b)
  unfolding synth_aflush
  synth_aflush-Adds (some r) none = record {
    has_lem = λ a. ground arith;
    listed_lem = λ a. ground (arith, listed-append a aflush b.synthesized);
  }
  synth_aflush-Adds (some r) (some o) = Adds-refl aflush b
  synth_aflush-Adds none o = Adds-refl aflush b

module _ {W : Type 0} (ns bases : Namespace W) where
  abbrev built : Built W
  built = record { cls = inherit ns bases; synthesized = [] }

  -- A name is in the list `synthesized` exactly when the class body defines the name's source (`read` for
  -- `aread`, `aread` for `aread_batch`, and so on) and does not define the name itself.
  pub listed-synthesized :
      (a : AsyncName)
      → listed a (new_class ns bases).synthesized ≡ (has_source a ns && not (has a ns))
  unfolding new_class
  listed-synthesized a =
      let b1 : Built W = synth_aread ns.read ns.aread built in
      let b2 : Built W = synth_aread_batch ns.aread ns.aread_batch b1 in
      let b3 : Built W = synth_awrite ns.write ns.awrite b2 in
      let b4 : Built W = synth_awrite_batch ns.awrite ns.awrite_batch b3 in
      let b5 : Built W = synth_aclose ns.close ns.aclose b4 in
      let b6 : Built W = synth_aflush ns.flush ns.aflush b5 in
      rw
        (
          (synth_aflush-Adds b5 ns.flush ns.aflush).listed_lem a,
          (synth_aclose-Adds b4 ns.close ns.aclose).listed_lem a,
          (synth_awrite_batch-Adds b3 ns.awrite ns.awrite_batch).listed_lem a,
          (synth_awrite-Adds b2 ns.write ns.awrite).listed_lem a,
          (synth_aread_batch-Adds b1 ns.aread ns.aread_batch).listed_lem a,
          (synth_aread-Adds built ns.read ns.aread).listed_lem a,
        )
        (ground arith)

  -- The new class has one of the six async names exactly when its body has it, its bases have it, or its
  -- body has the source of the name.
  pub has-new_class :
      (a : AsyncName)
      → has a (new_class ns bases).cls ≡ (has a ns || (has a bases || has_source a ns))
  unfolding new_class
  has-new_class a =
      let b1 : Built W = synth_aread ns.read ns.aread built in
      let b2 : Built W = synth_aread_batch ns.aread ns.aread_batch b1 in
      let b3 : Built W = synth_awrite ns.write ns.awrite b2 in
      let b4 : Built W = synth_awrite_batch ns.awrite ns.awrite_batch b3 in
      let b5 : Built W = synth_aclose ns.close ns.aclose b4 in
      let b6 : Built W = synth_aflush ns.flush ns.aflush b5 in
      rw
        (
          (synth_aflush-Adds b5 ns.flush ns.aflush).has_lem a,
          (synth_aclose-Adds b4 ns.close ns.aclose).has_lem a,
          (synth_awrite_batch-Adds b3 ns.awrite ns.awrite_batch).has_lem a,
          (synth_awrite-Adds b2 ns.write ns.awrite).has_lem a,
          (synth_aread_batch-Adds b1 ns.aread ns.aread_batch).has_lem a,
          (synth_aread-Adds built ns.read ns.aread).has_lem a,
        )
        (ground arith)
