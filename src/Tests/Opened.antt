-- ===== src/Tests/Opened.antt =====
-- The theorems on the objects that `open` returns, at small inputs.
use asynchstream.Base.{ℕ, suc, ◌≡◌, true, some, [], ◌∷◌, ℤ, pos}
use asynchstream.Exec.{Exec, ok, pure, call}
use asynchstream.Object.{Chunk, bytes, Stream, empty}
use asynchstream.Modes.{random}
use asynchstream.File.{fallback}
use asynchstream.Open.{raw_stream, buffered}
use asynchstream.Open.Objects.{Standard, opened_object, opened_over_fallback}
use asynchstream.Buffered.{Codecs}

-- A stream that counts its reads and its writes.
abbrev counter : Stream ℕ
counter = record empty {
  read = some (λ size loop w. (ok (bytes (w ∷ [])), suc w));
  write = some (λ b loop w. (ok 1, suc w));
}

abbrev standard : Standard ℕ
standard = record {
  buffered_over = λ kind raw. empty;
  text_over = λ buffer. empty;
  encoding_of = λ encoding. encoding;
  errors_of = λ errors. errors;
}

abbrev codecs : Codecs ℕ
codecs = record { encode = λ encoding errors t. pure t; decode = λ encoding errors b. pure b }

abbrev no_write : ℤ → Chunk → Exec ℕ ℕ
no_write n c = pure 0

opened_over_fallback_example :
    let raw = opened_object no_write empty standard codecs 0 (raw_stream (fallback counter)) in
    let o =
      opened_object no_write empty standard codecs 0
        (buffered random (fallback counter) (pos 8192)) in
    (call raw.aread (pos 1) true 5 ≡ (ok (bytes (5 ∷ [])), 6))
    × (call raw.awrite (bytes []) true 5 ≡ (ok 1, 6))
    × (call o.aread (pos 1) true 5 ≡ (ok (bytes (5 ∷ [])), 6))
    × (call o.awrite (bytes []) true 5 ≡ (ok 1, 6))
opened_over_fallback_example =
    opened_over_fallback no_write empty standard codecs 0 random random counter (pos 8192) (pos 1)
      (bytes []) true 5 (λ h. cc) (λ h. cc)
