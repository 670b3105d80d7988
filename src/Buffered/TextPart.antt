-- ===== src/Buffered/TextPart.antt =====
-- py_native_io/buffered.py: what goes through AsyncTextIOWrapper, where the encoding is UTF-8.
use asynchstream.Base.{
  ℕ, suc, ◌/◌, ◌≡◌, ◌≤◌, ◌<◌, Bool, false, none, some, List, ℤ, pos, take, arith,
}
use asynchstream.Exec.{Exec, ok, err, value_error, call}
use asynchstream.Object.{Chunk, bytes, str, Namespace, instantiate}
use asynchstream.Meta.{
  new_class, synth_aread, synth_aread_batch, synth_awrite, synth_awrite_batch, synth_aclose,
  synth_aflush,
}
use asynchstream.Utf8.{
  Text, encode_char, encode_utf8, decode_utf8, decode_from, is_scalar, or_unicode_error,
}
use asynchstream.Utf8.Lead.{two-IsLead, three-IsLead, four-IsLead, decode_from-alone}
use asynchstream.Utf8.Char.{encode_char_elim}
use asynchstream.Utf8.RoundTrip.{AreCodePoints, all, encode_utf8-surrogate, decode_utf8-encode_utf8}
use asynchstream.Buffered.{
  Codecs, or_default, utf8_name, strict_name, TextLayer, text_aread, text_awrite, text_body,
  text_class,
}

-- The codec of that name, with strict errors.
pub record IsUtf8 {W : Type 0} (codecs : Codecs W) : Type 0 where
  pub encode_lem :
      (t : Text) (loop : Bool) (w : W)
      → codecs.encode utf8_name strict_name t loop w ≡ or_unicode_error (encode_utf8 t) loop w
  pub decode_lem :
      (b : List ℕ) (loop : Bool) (w : W)
      → codecs.decode utf8_name strict_name b loop w ≡ or_unicode_error (decode_utf8 b) loop w

-- The first byte of a longer code point is no text.
decode_utf8-first :
    (c : ℕ) (bs : List ℕ)
    → 128 ≤ c
    → c < 1114112
    → encode_char c ≡ some bs
    → decode_utf8 (take 1 bs) ≡ none
unfolding decode_utf8
decode_utf8-first c bs lo top =
    encode_char_elim (λ l. decode_from 0 0 0 (take 1 l) ≡ none) c bs (λ h. absurd (omega arith))
      (λ a h. decode_from-alone _ 0 _ _ (two-IsLead (c / 64) (omega arith)))
      (λ a h. decode_from-alone _ 1 _ _ (three-IsLead (c / 4096) (omega arith)))
      (λ a. decode_from-alone _ 2 _ _ (four-IsLead (c / 262144) (omega arith)))

module _ {W : Type 0} (codecs : Codecs W) (utf8 : IsUtf8 codecs) (os_write : ℤ → Chunk → Exec W ℕ)
    (standard io_base : Namespace W) (depth : ℕ) (t : TextLayer W)
    (encoding : or_default utf8_name t.encoding ≡ utf8_name)
    (errors : or_default strict_name t.errors ≡ strict_name) where
  -- On an AsyncTextIOWrapper with UTF-8 and strict errors, over a buffer with `awrite` and `aread`, for a text
  -- that has an encoding: `awrite` hands the buffer the encoding, and an `aread` that the buffer answers with
  -- that encoding returns the text.
  pub text_aread-text_awrite :
      (m : Chunk → Exec W ℕ) (r : ℤ → Exec W Chunk) (s : Text) (buf : List ℕ) (size : ℤ)
      (loop : Bool) (v v' w : W)
      → t.buffer.awrite ≡ some m
      → t.buffer.aread ≡ some r
      → AreCodePoints s
      → encode_utf8 s ≡ some buf
      → r size loop w ≡ (ok (bytes buf), v')
      → let o = instantiate (suc depth) (text_class os_write standard io_base codecs t) in
        (call o.awrite (str s) loop v ≡ m (bytes buf) loop v)
        × (call o.aread size loop w ≡ (ok (str s), v'))
  unfolding instantiate text_body text_aread text_awrite new_class synth_aread synth_aread_batch
      synth_awrite synth_awrite_batch synth_aclose synth_aflush
  text_aread-text_awrite m r s buf size loop v v' w e f p h q = (
    simp (e, encoding, errors, utf8.encode_lem, h),
    simp (f, q, encoding, errors, utf8.decode_lem, decode_utf8-encode_utf8 s buf p h),
  )

  -- On such a wrapper, where the next code point has two bytes or more: an `aread` of size 1 that the buffer
  -- answers with the first of them raises ValueError, in the state after that read.
  pub text_aread_cut :
      (r : ℤ → Exec W Chunk) (c : ℕ) (bs : List ℕ) (loop : Bool) (w w' : W)
      → t.buffer.aread ≡ some r
      → 128 ≤ c
      → c < 1114112
      → encode_char c ≡ some bs
      → r (pos 1) loop w ≡ (ok (bytes (take 1 bs)), w')
      → let o = instantiate (suc depth) (text_class os_write standard io_base codecs t) in
        call o.aread (pos 1) loop w ≡ (err value_error, w')
  unfolding instantiate text_body text_aread new_class synth_aread synth_aread_batch synth_awrite
      synth_awrite_batch synth_aclose synth_aflush
  text_aread_cut r c bs loop w w' f lo top h q =
      simp (f, q, encoding, errors, utf8.decode_lem, decode_utf8-first c bs lo top h)

  -- On such a wrapper, `awrite` of a text with a surrogate raises ValueError and does nothing.
  pub text_awrite_surrogate :
      (s : Text) (loop : Bool) (w : W)
      → AreCodePoints s
      → all is_scalar s ≡ false
      → let o = instantiate (suc depth) (text_class os_write standard io_base codecs t) in
        call o.awrite (str s) loop w ≡ (err value_error, w)
  unfolding instantiate text_body text_awrite new_class synth_aread synth_aread_batch synth_awrite
      synth_awrite_batch synth_aclose synth_aflush
  text_awrite_surrogate s loop w p h =
      simp (encoding, errors, utf8.encode_lem, encode_utf8-surrogate s p h)
