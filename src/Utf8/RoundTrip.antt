-- ===== src/Utf8/RoundTrip.antt =====
-- Decoding what was encoded, which texts have an encoding, and its length.
use asynchstream.Base.{
  ℕ, zero, ◌*◌, ◌<◌, ◌≤◌, ◌≡◌, refl, Bool, true, false, Option, none, some, List, [], ◌∷◌, ◌++◌,
  arith, is_some, length, length-append, ◌&&◌,
}
use asynchstream.Utf8.{Text, encode_char, encode_utf8, decode_from, decode_utf8, is_scalar}
use asynchstream.Utf8.Char.{
  encode_char-is_scalar, encode_char-Decodes, AreBytes, AreBytes-append, encode_char_bounds,
}

-- Every code point is below 0x110000, as Python's are.
abbrev pub AreCodePoints : Text → Type 0
AreCodePoints [] = Unit {0}
AreCodePoints (c ∷ t) = (c < 1114112) × AreCodePoints t

abbrev pub all : (ℕ → Bool) → Text → Bool
all test [] = true
all test (c ∷ t) = test c && all test t

decode_from-nil : decode_from zero 0 0 [] ≡ some []
unfolding decode_from
decode_from-nil = refl

pub decode_utf8-encode_utf8 :
    (t : Text) (buf : List ℕ)
    → AreCodePoints t
    → encode_utf8 t ≡ some buf
    → decode_utf8 buf ≡ some t
unfolding encode_utf8 decode_utf8
decode_utf8-encode_utf8 [] buf p h = let e : buf ≡ [] = ground (arith, h) in rw e (decode_from-nil)
decode_utf8-encode_utf8 (c ∷ t) buf p h =
    go (encode_char c) (encode_utf8 t) refl refl (λ y e'. decode_utf8-encode_utf8 t y p.1 e')
  where
    go :
        (x y : Option (List ℕ))
        → encode_char c ≡ x
        → encode_utf8 t ≡ y
        → ((z : List ℕ) → encode_utf8 t ≡ some z → decode_utf8 z ≡ some t)
        → decode_utf8 buf ≡ some (c ∷ t)
    go none y e e' ih = ground (arith, e, h)
    go (some x) none e e' ih = ground (arith, e, e', h)
    go (some x) (some y) e e' ih =
        let b : buf ≡ x ++ y = ground (arith, e, e', h) in
        rw (b, encode_char-Decodes c x y p.0 e, ih y e') refl

-- A text has an encoding exactly when it has no surrogate.
pub encode_utf8-is_some : (t : Text) → AreCodePoints t → is_some (encode_utf8 t) ≡ all is_scalar t
unfolding encode_utf8
encode_utf8-is_some [] p = refl
encode_utf8-is_some (c ∷ t) p =
    let a : is_some (encode_char c) ≡ is_scalar c = encode_char-is_scalar c p.0 in
    ground (arith, a, encode_utf8-is_some t p.1)

pub encode_utf8-surrogate :
    (t : Text) → AreCodePoints t → all is_scalar t ≡ false → encode_utf8 t ≡ none
encode_utf8-surrogate t p h = ground (arith, encode_utf8-is_some t p, h)

pub encode_utf8_bounds :
    (t : Text) (buf : List ℕ)
    → AreCodePoints t
    → encode_utf8 t ≡ some buf
    → AreBytes buf × (length t ≤ length buf) × (length buf ≤ 4 * length t)
unfolding encode_utf8
encode_utf8_bounds [] buf p h =
    let e : buf ≡ [] = ground (arith, h) in rw e (tt, omega arith, omega arith)
encode_utf8_bounds (c ∷ t) buf p h =
    go (encode_char c) (encode_utf8 t) refl refl (λ y e'. encode_utf8_bounds t y p.1 e')
  where
    go :
        (x y : Option (List ℕ))
        → encode_char c ≡ x
        → encode_utf8 t ≡ y
        → ((z : List ℕ)
            → encode_utf8 t ≡ some z
            → AreBytes z × (length t ≤ length z) × (length z ≤ 4 * length t))
        → AreBytes buf × (length (c ∷ t) ≤ length buf) × (length buf ≤ 4 * length (c ∷ t))
    go none y e e' ih = ground (arith, e, h)
    go (some x) none e e' ih = ground (arith, e, e', h)
    go (some x) (some y) e e' ih =
        let b : buf ≡ x ++ y = ground (arith, e, e', h) in
        let (bytes, lo, hi) = encode_char_bounds c x p.0 e in
        let (more, below, above) = ih y e' in
        let n = length-append x y in rw b (AreBytes-append x y bytes more, omega arith, omega arith)
