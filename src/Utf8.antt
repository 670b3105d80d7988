-- ===== src/Utf8.antt =====
-- Python's text: `encode("utf-8")` and `decode("utf-8")` with strict errors, which print.py and
-- buffered.py call.
pub mod Lead
pub mod Char
pub mod RoundTrip
use asynchstream.Base.{
  ℕ, zero, suc, ◌+◌, ◌-◌, ◌*◌, ◌/◌, ◌%◌, Bool, true, false, not, ◌&&◌, ◌||◌, Option, none, some,
  List, [], ◌∷◌, ◌++◌, ltb, leb, if◌then◌else◌,
}
use asynchstream.Exec.{Exec, pure, raise, value_error}

-- A text, by its code points.
abbrev pub Text : Type 0
Text = List ℕ

-- The UTF-8 encoding of a code point; a surrogate has none.
unfoldable pub encode_char : ℕ → Option (List ℕ)
encode_char c =
    if ltb c 128
    then some (c ∷ [])
    else if ltb c 2048
    then some ((192 + c / 64) ∷ (128 + c % 64) ∷ [])
    else if ltb c 55296
    then some ((224 + c / 4096) ∷ (128 + c / 64 % 64) ∷ (128 + c % 64) ∷ [])
    else if ltb c 57344
    then none
    else if ltb c 65536
    then some ((224 + c / 4096) ∷ (128 + c / 64 % 64) ∷ (128 + c % 64) ∷ [])
    else some
        ((240 + c / 262144) ∷ (128 + c / 4096 % 64) ∷ (128 + c / 64 % 64) ∷ (128 + c % 64) ∷ [])

abbrev append_encoded : Option (List ℕ) → Option (List ℕ) → Option (List ℕ)
append_encoded (some c) (some rest) = some (c ++ rest)
append_encoded _ _ = none

-- `output.encode("utf-8")`
unfoldable pub encode_utf8 : Text → Option (List ℕ)
encode_utf8 [] = some []
encode_utf8 (c ∷ text) = append_encoded (encode_char c) (encode_utf8 text)

-- How many bytes follow a first byte, the bits that it carries, and the least code point of its length.
unfoldable pub need : ℕ → ℕ
need b = if ltb b 128 then 0 else if ltb b 224 then 1 else if ltb b 240 then 2 else 3

unfoldable pub lead_bits : ℕ → ℕ
lead_bits b =
    if ltb b 128 then b else if ltb b 224 then b - 192 else if ltb b 240 then b - 224 else b - 240

unfoldable pub least : ℕ → ℕ
least b = if ltb b 128 then 0 else if ltb b 224 then 128 else if ltb b 240 then 2048 else 65536

unfoldable pub is_first : ℕ → Bool
is_first b = ltb b 128 || (leb 192 b && ltb b 248)

unfoldable pub is_next : ℕ → Bool
is_next b = leb 128 b && ltb b 192

-- A code point that is no surrogate.
unfoldable pub is_scalar : ℕ → Bool
is_scalar c = ltb c 1114112 && not (leb 55296 c && ltb c 57344)

abbrev pub cons_decoded : ℕ → Option Text → Option Text
cons_decoded c none = none
cons_decoded c (some text) = some (c ∷ text)

-- A code point that is complete is checked, and stands before the rest.
unfoldable pub finish : ℕ → ℕ → ℕ → Option Text → Option Text
unfolding is_scalar
finish zero c low rest = if is_scalar c && leb low c then cons_decoded c rest else none
finish (suc n) c low rest = rest

-- Of a code point, `n` bytes are still to come; `c` is what there is of it.
unfoldable pub decode_from : ℕ → ℕ → ℕ → List ℕ → Option Text
unfolding finish need lead_bits least is_first is_next
decode_from zero c low [] = some []
decode_from (suc n) c low [] = none
decode_from zero c low (b ∷ bs) =
    let rest = decode_from (need b) (lead_bits b) (least b) bs in
    if is_first b then finish (need b) (lead_bits b) (least b) rest else none
decode_from (suc n) c low (b ∷ bs) =
    let c' = c * 64 + (b - 128) in
    let rest = decode_from n c' low bs in if is_next b then finish n c' low rest else none

-- `buf.decode("utf-8")`
unfoldable pub decode_utf8 : List ℕ → Option Text
decode_utf8 buf = decode_from 0 0 0 buf

-- UnicodeEncodeError and UnicodeDecodeError are ValueErrors.
abbrev pub or_unicode_error : {W : Type 0} → Option (List ℕ) → Exec W (List ℕ)
or_unicode_error none = raise value_error
or_unicode_error (some result) = pure result
