-- ===== src/Ring/Pushing.antt =====
-- src/engines/linux.rs: the entries of a batch are all accepted, and lose no other request.
use asynchstream.Base.{
  ℕ, ◌+◌, ◌≤◌, ◌<◌, ◌≡◌, refl, sym, ◌∙◌, ◌++◌, append-nil, append_assoc, inl, inr, Bool, true, List,
  [], ◌∷◌, map, ℤ, arith, Bool-cases, length,
}
use asynchstream.Exec.{Result, ok}
use asynchstream.Ring.{Sqe, user_data, IoUring, RingState, push_entry, push_all}
use asynchstream.Ring.Kernel.{Kernel}
use asynchstream.Ring.Waiting.{owed, is_ok-cases}

module _ {K : Type 0} (io : IoUring K) (answer : ℕ → ℤ) (kernel : Kernel io answer) where
  unfoldable pub AllOwed : RingState K → List ℕ → Type 0
  AllOwed s [] = Unit
  AllOwed s (id ∷ ids) = (owed io answer kernel s id ≡ true) × AllOwed s ids

  pub AllOwed-later :
      (s s' : RingState K) (ids : List ℕ)
      → ((i : ℕ) → owed io answer kernel s i ≡ true → owed io answer kernel s' i ≡ true)
      → AllOwed s ids
      → AllOwed s' ids
  unfolding AllOwed
  AllOwed-later s s' [] k h = tt
  AllOwed-later s s' (id ∷ ids) k (o, h) = (k id o, AllOwed-later s s' ids k h)

  -- Just the requests `es` were accepted; they, with the numbers `ids`, are under way after the action,
  -- and those before it still are.
  pub record Pushes (s : RingState K) (es : List Sqe) (ids : List ℕ)
      (out : Result (Unit {0}) × RingState K) : Type 0 where
    pub value : out.0 ≡ ok tt
    pub owes : (i : ℕ) → owed io answer kernel s i ≡ true → owed io answer kernel out.1 i ≡ true
    pub taken : AllOwed out.1 ids
    pub same : out.1.completed ≡ s.completed
    pub more : kernel.count out.1.ring ≡ kernel.count s.ring + length ids
    pub log : kernel.pushed out.1.ring ≡ kernel.pushed s.ring ++ es

  module _ (loop : Bool) where
    pub push_entry-Pushes :
        (e : Sqe) (s : RingState K)
        → kernel.count s.ring < kernel.capacity
        → Pushes s (e ∷ []) (user_data e ∷ []) (push_entry io e loop s)
    unfolding push_entry AllOwed
    push_entry-Pushes e s r = elim (Bool-cases (io.push e s.ring).0) [
      | inl t ↦
          let (p, c) = kernel.push-taken e s.ring t in
          rw t (record {
            value = refl;
            owes = λ i h. let q = kernel.push-pending e s.ring i in ground arith;
            taken = (ground arith, tt);
            same = refl;
            more = omega arith;
            log = kernel.push-pushed e s.ring t;
          })
      | inr f ↦
          let (c1, w, t) = kernel.push-refused e s.ring f r in
          let k1 = (io.push e s.ring).1 in
          let k2 = (io.submit_and_wait 1 k1).1 in
          let (n, q) = is_ok-cases (io.submit_and_wait 1 k1).0 w in
          let (p, c3) = kernel.push-taken e k2 t in
          let c2 = kernel.wait-count 1 k1 in
          rw (f, q, t)
            (record {
              value = refl;
              owes = λ i h.
                  let q1 = kernel.push-pending e s.ring i in
                  let q2 = kernel.wait-pending 1 k1 i in
                  let q3 = kernel.push-pending e k2 i in ground arith;
              taken = (ground arith, tt);
              same = refl;
              more = omega arith;
              log =
                  kernel.push-pushed e k2 t
                  ∙ rw (kernel.wait-pushed 1 k1, kernel.refused-pushed e s.ring f) refl;
            })
    ]

    pub push_all-Pushes :
        (es : List Sqe) (s : RingState K)
        → kernel.count s.ring + length es ≤ kernel.capacity
        → Pushes s es (map user_data es) (push_all io es loop s)
    unfolding push_all AllOwed
    push_all-Pushes [] s r = record {
      value = refl;
      owes = λ i h. h;
      taken = tt;
      same = refl;
      more = omega arith;
      log = sym (append-nil (kernel.pushed s.ring));
    }
    push_all-Pushes (e ∷ es) s r =
        let p = push_entry-Pushes e s (omega (arith, r)) in
        let s1 = (push_entry io e loop s).1 in
        let c1 = p.more in
        let q = push_all-Pushes es s1 (omega (arith, r, c1)) in
        let c2 = q.more in
        rw p.value (record {
          value = q.value;
          owes = λ i h. q.owes i (p.owes i h);
          taken = (q.owes (user_data e) p.taken.0, q.taken);
          same = q.same ∙ p.same;
          more = omega arith;
          log = q.log ∙ rw p.log (append_assoc (kernel.pushed s.ring) (e ∷ []) es);
        })
