-- ===== src/Utf8/Lead.antt =====
-- Decoding the one to four bytes of a code point.
use asynchstream.Base.{
  ℕ, zero, suc, ◌+◌, ◌-◌, ◌*◌, ◌/◌, ◌%◌, ◌<◌, ◌≤◌, ◌≡◌, refl, true, Option, none, List, [], ◌∷◌,
  leb, arith,
}
use asynchstream.Utf8.{
  Text, need, lead_bits, least, is_first, is_next, finish, cons_decoded, decode_from, is_scalar,
}

decode_from-zero : (c low : ℕ) (bs : List ℕ) → decode_from zero c low bs ≡ decode_from zero 0 0 bs
unfolding decode_from
decode_from-zero c low [] = refl
decode_from-zero c low (b ∷ bs) = refl

-- What a first byte says.
pub IsLead : ℕ → ℕ → ℕ → ℕ → Type 0
IsLead b n p low = (need b ≡ n) × (lead_bits b ≡ p) × (least b ≡ low) × (is_first b ≡ true)

one-IsLead : (b : ℕ) → b < 128 → IsLead b 0 b 0
unfolding IsLead need lead_bits least is_first
one-IsLead b h = (ground arith, ground arith, ground arith, ground arith)

pub two-IsLead : (p : ℕ) → p < 32 → IsLead (192 + p) 1 p 128
unfolding IsLead need lead_bits least is_first
two-IsLead p h = (ground arith, ground arith, ground arith, ground arith)

pub three-IsLead : (p : ℕ) → p < 16 → IsLead (224 + p) 2 p 2048
unfolding IsLead need lead_bits least is_first
three-IsLead p h = (ground arith, ground arith, ground arith, ground arith)

pub four-IsLead : (p : ℕ) → p < 8 → IsLead (240 + p) 3 p 65536
unfolding IsLead need lead_bits least is_first
four-IsLead p h = (ground arith, ground arith, ground arith, ground arith)

pub decode_from-lead :
    (b n p low : ℕ) (bs : List ℕ)
    → IsLead b n p low
    → decode_from zero 0 0 (b ∷ bs) ≡ finish n p low (decode_from n p low bs)
unfolding IsLead decode_from
decode_from-lead b n p low bs (a, c, d, e) = rw (a, c, d, e) refl

decode_from-next :
    (n c low y c' : ℕ) (bs : List ℕ)
    → y < 64
    → c * 64 + y ≡ c'
    → decode_from (suc n) c low ((128 + y) ∷ bs) ≡ finish n c' low (decode_from n c' low bs)
unfolding decode_from is_next
decode_from-next n c low y c' bs h e =
    let q : is_next (128 + y) ≡ true = ground arith in
    let v : c * 64 + (128 + y - 128) ≡ c' = omega arith in rw (q, v) refl

finish-zero :
    (c low : ℕ) (bs : List ℕ)
    → is_scalar c ≡ true
    → low ≤ c
    → finish zero c low (decode_from zero c low bs) ≡ cons_decoded c (decode_from zero 0 0 bs)
unfolding finish
finish-zero c low bs h l =
    let q : leb low c ≡ true = ground arith in rw (decode_from-zero c low bs, h, q) refl

finish-suc : (n c low : ℕ) (rest : Option Text) → finish (suc n) c low rest ≡ rest
unfolding finish
finish-suc n c low rest = refl

-- A first byte that wants more, with nothing behind it.
pub decode_from-alone :
    (b n p low : ℕ) → IsLead b (suc n) p low → decode_from zero 0 0 (b ∷ []) ≡ none
unfolding decode_from
decode_from-alone b n p low h = rw (decode_from-lead b (suc n) p low [] h) refl

-- The four lengths of an encoded code point.
module _ (c : ℕ) (more : List ℕ) (scalar : is_scalar c ≡ true) where
  abbrev pub Decodes : List ℕ → Type 0
  Decodes bs = decode_from zero 0 0 bs ≡ cons_decoded c (decode_from zero 0 0 more)

  pub one-Decodes : c < 128 → Decodes (c ∷ more)
  one-Decodes h =
      rw (decode_from-lead c 0 c 0 more (one-IsLead c h))
        (finish-zero c 0 more scalar (omega arith))

  pub two-Decodes : 128 ≤ c → c < 2048 → Decodes ((192 + c / 64) ∷ (128 + c % 64) ∷ more)
  two-Decodes lo hi =
      rw
        (
          decode_from-lead _ 1 (c / 64) 128 _ (two-IsLead (c / 64) (omega arith)),
          finish-suc,
          decode_from-next 0 (c / 64) 128 (c % 64) c more (omega arith) (omega arith),
        )
        (finish-zero c 128 more scalar lo)

  pub three-Decodes :
      2048 ≤ c
      → c < 65536
      → Decodes ((224 + c / 4096) ∷ (128 + c / 64 % 64) ∷ (128 + c % 64) ∷ more)
  three-Decodes lo hi =
      rw
        (
          decode_from-lead _ 2 (c / 4096) 2048 _ (three-IsLead (c / 4096) (omega arith)),
          finish-suc,
          decode_from-next 1 (c / 4096) 2048 (c / 64 % 64) (c / 64) _ (omega arith) (omega arith),
          finish-suc,
          decode_from-next 0 (c / 64) 2048 (c % 64) c more (omega arith) (omega arith),
        )
        (finish-zero c 2048 more scalar lo)

  pub four-Decodes :
      65536 ≤ c
      → c < 1114112
      → Decodes
          ((240 + c / 262144) ∷ (128 + c / 4096 % 64) ∷ (128 + c / 64 % 64) ∷ (128 + c % 64) ∷ more)
  four-Decodes lo hi =
      rw
        (
          decode_from-lead _ 3 (c / 262144) 65536 _ (four-IsLead (c / 262144) (omega arith)),
          finish-suc,
          decode_from-next 2 (c / 262144) 65536 (c / 4096 % 64) (c / 4096) _ (omega arith)
              (omega arith),
          finish-suc,
          decode_from-next 1 (c / 4096) 65536 (c / 64 % 64) (c / 64) _ (omega arith) (omega arith),
          finish-suc,
          decode_from-next 0 (c / 64) 65536 (c % 64) c more (omega arith) (omega arith),
        )
        (finish-zero c 65536 more scalar lo)
