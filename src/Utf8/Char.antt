-- ===== src/Utf8/Char.antt =====
-- The encoding of one code point.
use asynchstream.Base.{
  ℕ, zero, ◌+◌, ◌/◌, ◌%◌, ◌<◌, ◌≤◌, ◌≡◌, true, some, List, [], ◌∷◌, ◌++◌, ltb, arith, Bool-cases,
  inl, inr, is_some, length, sym, ap, ◌∙◌,
}
use asynchstream.Utf8.{encode_char, cons_decoded, decode_from, is_scalar}
use asynchstream.Utf8.Lead.{one-Decodes, two-Decodes, three-Decodes, four-Decodes}

-- What holds of the four forms holds of the encoding.
pub encode_char_elim :
    (P : List ℕ → Type 0) (c : ℕ) (bs : List ℕ)
    → (c < 128 → P (c ∷ []))
    → (128 ≤ c → c < 2048 → P ((192 + c / 64) ∷ (128 + c % 64) ∷ []))
    → (2048 ≤ c → c < 65536 → P ((224 + c / 4096) ∷ (128 + c / 64 % 64) ∷ (128 + c % 64) ∷ []))
    → (65536 ≤ c
        → P (
            (240 + c / 262144) ∷ (128 + c / 4096 % 64) ∷ (128 + c / 64 % 64) ∷ (128 + c % 64) ∷ []))
    → encode_char c ≡ some bs
    → P bs
unfolding encode_char
encode_char_elim P c bs one two three four h = elim (Bool-cases (ltb c 128)) [
  | inl a ↦ let e : bs ≡ c ∷ [] = ground (arith, a, h) in rw e (one (ground (arith, a)))
  | inr a ↦ elim (Bool-cases (ltb c 2048)) [
    | inl b ↦
        let e : bs ≡ (192 + c / 64) ∷ (128 + c % 64) ∷ [] = ground (arith, a, b, h) in
        rw e (two (ground (arith, a)) (ground (arith, b)))
    | inr b ↦ elim (Bool-cases (ltb c 65536)) [
      | inl d ↦
          let e : bs ≡ (224 + c / 4096) ∷ (128 + c / 64 % 64) ∷ (128 + c % 64) ∷ [] =
            ground (arith, a, b, d, h) in
          rw e (three (ground (arith, b)) (ground (arith, d)))
      | inr d ↦
          let e : bs
              ≡ (240 + c / 262144)
                ∷ (128 + c / 4096 % 64)
                ∷ (128 + c / 64 % 64)
                ∷ (128 + c % 64)
                ∷ [] =
            ground (arith, a, b, d, h) in
          rw e (four (ground (arith, d)))
    ]
  ]
]

pub encode_char-is_scalar : (c : ℕ) → c < 1114112 → is_some (encode_char c) ≡ is_scalar c
unfolding encode_char is_scalar
encode_char-is_scalar c h = ground arith

-- Decoding the encoding, whatever follows it.
pub encode_char-Decodes :
    (c : ℕ) (bs more : List ℕ)
    → c < 1114112
    → encode_char c ≡ some bs
    → decode_from zero 0 0 (bs ++ more) ≡ cons_decoded c (decode_from zero 0 0 more)
encode_char-Decodes c bs more top h =
    let scalar : is_scalar c ≡ true = sym (encode_char-is_scalar c top) ∙ ap is_some h in
    encode_char_elim
      (λ l. decode_from zero 0 0 (l ++ more) ≡ cons_decoded c (decode_from zero 0 0 more)) c bs
      (one-Decodes c more scalar) (two-Decodes c more scalar) (three-Decodes c more scalar)
      (λ lo. four-Decodes c more scalar lo top) h

abbrev pub AreBytes : List ℕ → Type 0
AreBytes [] = Unit {0}
AreBytes (b ∷ bs) = (b < 256) × AreBytes bs

pub AreBytes-append : (xs ys : List ℕ) → AreBytes xs → AreBytes ys → AreBytes (xs ++ ys)
AreBytes-append [] ys p q = q
AreBytes-append (x ∷ xs) ys p q = (p.0, AreBytes-append xs ys p.1 q)

pub encode_char_bounds :
    (c : ℕ) (bs : List ℕ)
    → c < 1114112
    → encode_char c ≡ some bs
    → AreBytes bs × (1 ≤ length bs) × (length bs ≤ 4)
encode_char_bounds c bs top =
    encode_char_elim (λ l. AreBytes l × (1 ≤ length l) × (length l ≤ 4)) c bs (λ h. omega arith)
      (λ lo hi. omega arith) (λ lo hi. omega arith) (λ lo. omega arith)
