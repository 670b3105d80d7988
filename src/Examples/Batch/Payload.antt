-- ===== src/Examples/Batch/Payload.antt =====
-- examples/01_sync_and_async_file_io.py: the length of the payload.
use native.Mathlib.Nat.{lt-mul-div-succ}
use asynchstream.Base.{
  ℕ, zero, suc, ◌+◌, ◌*◌, ◌/◌, ◌≤◌, ◌<◌, ◌≡◌, refl, List, [], ◌∷◌, ◌++◌, length, take, ℤ, pos,
  negsuc, arith,
}
use asynchstream.Examples.Batch.{copies, payload_size_kb, make_payload}

length-append : (p q : List ℕ) → length (p ++ q) ≡ length p + length q
length-append [] q = omega arith
length-append (x ∷ p) q = omega (arith, length-append p q)

length-copies : (n : ℕ) (b : List ℕ) → length (copies n b) ≡ length b * n
length-copies zero b = omega arith
length-copies (suc n) b = omega (arith, length-append b (copies n b), length-copies n b)

length-take : (n : ℕ) (xs : List ℕ) → n ≤ length xs → length (take n xs) ≡ n
length-take zero xs h = refl
length-take (suc n) [] h = absurd (omega (arith, h))
length-take (suc n) (x ∷ xs) h = omega (arith, length-take n xs (omega (arith, h)))

pub length-make_payload :
    (base_chunk : List ℕ) (kb : ℤ)
    → 0 < length base_chunk
    → length (make_payload base_chunk kb) ≡ payload_size_kb kb * 1024
unfolding make_payload
length-make_payload base_chunk kb h =
    let n = payload_size_kb kb * 1024 in
    let enough = lt-mul-div-succ n h in
    let all = length-copies (n / length base_chunk + 1) base_chunk in
    length-take n _ (omega (arith, enough, all))

pub payload_size_kb_bounds : (kb : ℤ) → (1 ≤ payload_size_kb kb) × (payload_size_kb kb ≤ 2048)
payload_size_kb_bounds (pos kb) = ground arith
payload_size_kb_bounds (negsuc kb) = (omega arith, omega arith)
