-- ===== src/Tests/Buffered.antt =====
-- The theorems on the buffered classes, at small inputs.
use asynchstream.Base.{
  ℕ, ◌≡◌, refl, true, none, some, List, [], ◌∷◌, ◌++◌, length, take, ℤ, pos, minus_one, arith,
}
use asynchstream.Exec.{Exec, Result, ok, err, pure, type_error, value_error, call, run, ◌>>◌}
use asynchstream.Object.{Chunk, bytes, str, Stream, Namespace, empty, instantiate}
use asynchstream.Modes.{reader, writer}
use asynchstream.Utf8.{encode_char, encode_utf8, or_unicode_error, decode_utf8}
use asynchstream.Meta.{
  new_class, synth_aread, synth_aread_batch, synth_awrite, synth_awrite_batch, synth_aclose,
  synth_aflush,
}
use asynchstream.Buffered.{
  Codecs, TextLayer, buffered_body, buffered_awrite, buffered_class, text_class,
}
use asynchstream.Buffered.Direct.{WritesRaw, KeepsWrites, awrite_overtakes_write}
use asynchstream.Buffered.TextPart.{IsUtf8, text_aread-text_awrite, text_aread_cut}

utf8_codecs : Codecs (List ℕ)
utf8_codecs = record {
  encode = λ encoding errors t. or_unicode_error (encode_utf8 t);
  decode = λ encoding errors b. or_unicode_error (decode_utf8 b);
}

utf8_codecs-IsUtf8 : IsUtf8 utf8_codecs
unfolding utf8_codecs
utf8_codecs-IsUtf8 = record { encode_lem = λ t loop w. refl; decode_lem = λ b loop w. refl }

-- A file of bytes. A read of one byte leaves the file as it is; it is all that the test needs.
abbrev put : Chunk → Exec (List ℕ) ℕ
put (bytes b) loop w = (ok (length b), w ++ b)
put (str s) loop w = (err type_error, w)

abbrev get : ℤ → Exec (List ℕ) Chunk
get (pos n) loop w = (ok (bytes (take n w)), w)
get (ℤ.negsuc n) loop w = (ok (bytes w), [])

abbrev layer : TextLayer (List ℕ)
layer = record {
  buffer = record empty { aread = some get; awrite = some put };
  encoding = none;
  errors = none;
}

abbrev no_write : ℤ → Chunk → Exec (List ℕ) ℕ
no_write n c = pure 0

-- The euro sign.
abbrev euro : List ℕ
euro = 226 ∷ 130 ∷ 172 ∷ []

euro_encodes : (encode_char 8364 ≡ some euro) × (encode_utf8 (8364 ∷ []) ≡ some euro)
unfolding encode_char encode_utf8
euro_encodes = (refl, refl)

text_aread-text_awrite_example :
    let o = instantiate 1 (text_class no_write empty empty utf8_codecs layer) in
    (call o.awrite (str (8364 ∷ [])) true [] ≡ put (bytes euro) true [])
    × (call o.aread minus_one true euro ≡ (ok (str (8364 ∷ [])), []))
text_aread-text_awrite_example =
    text_aread-text_awrite utf8_codecs utf8_codecs-IsUtf8 no_write empty empty 0 layer refl refl put
      get (8364 ∷ []) euro minus_one true [] [] euro refl refl (omega arith) (euro_encodes.1) refl

text_aread_cut_example :
    let o = instantiate 1 (text_class no_write empty empty utf8_codecs layer) in
    call o.aread (pos 1) true euro ≡ (err value_error, euro)
text_aread_cut_example =
    text_aread_cut utf8_codecs utf8_codecs-IsUtf8 no_write empty empty 0 layer refl refl get 8364
      euro true euro euro refl (omega arith) (omega arith) (euro_encodes.0) refl

-- A file under a buffer: what the buffer holds, and what is below it.
record Buffer : Type 0 where
  held : List ℕ
  below : List ℕ

abbrev take_below : ℤ → Exec Buffer Chunk
take_below size loop w = (ok (bytes w.below), record w { below = [] })

abbrev put_below : Chunk → Exec Buffer ℕ
put_below (bytes b) loop w = (ok (length b), record w { below = w.below ++ b })
put_below (str s) loop w = (err type_error, w)

abbrev hold : Chunk → Exec Buffer ℕ
hold (bytes b) loop w = (ok (length b), record w { held = w.held ++ b })
hold (str s) loop w = (err type_error, w)

abbrev empty_out : Exec Buffer Unit
empty_out loop w = (ok tt, record { held = []; below = w.below ++ w.held })

abbrev raw : Stream Buffer
raw = record empty { aread = some take_below; awrite = some put_below }

abbrev standard : Namespace Buffer
standard = record empty { write = some (λ self. hold); flush = some (λ self. empty_out) }

abbrev held : Buffer → List ℕ
held w = w.held

abbrev below : Buffer → List ℕ
below w = w.below

put_below-WritesRaw : WritesRaw below held put_below
put_below-WritesRaw = record { writes = λ l loop w w' n h. (ground (arith, h), ground (arith, h)) }

hold-KeepsWrites : KeepsWrites below held hold empty_out
hold-KeepsWrites = record {
  write_keeps = λ l loop w w' n h. (ground (arith, h), ground (arith, h));
  flush_gives = λ loop w w' h. (ground (arith, h), ground (arith, h));
}

abbrev read_ahead : Buffer
read_ahead = record { held = 1 ∷ 2 ∷ []; below = 3 ∷ [] }

-- A `read` of one byte of the buffer.
read_one : Buffer → List ℕ → Result Chunk × Buffer
read_one w [] = (ok (bytes []), w)
read_one w (x ∷ xs) = (ok (bytes (x ∷ [])), record w { held = xs })

abbrev take_held : ℤ → Exec Buffer Chunk
take_held size loop w = read_one w w.held

abbrev reading_standard : Namespace Buffer
reading_standard = record empty { read = some (λ self. take_held) }

abbrev buffered_reading : Stream Buffer
buffered_reading = instantiate 1 (buffered_class (λ n c. pure 0) reading_standard empty reader raw)

abbrev second_held : Buffer
second_held = record { held = []; below = [] }

write_runs :
    let o = instantiate 1 (buffered_class (λ n c. pure 0) standard empty writer raw) in
    (do call o.write (bytes (1 ∷ [])); call o.awrite (bytes (2 ∷ [])); run o.flush) true
      (record { held = []; below = [] })
    ≡ (ok tt, record { held = []; below = 2 ∷ 1 ∷ [] })
unfolding instantiate new_class synth_aread synth_aread_batch synth_awrite synth_awrite_batch
    synth_aclose synth_aflush buffered_body buffered_awrite
write_runs = refl

abbrev nothing_written : Buffer
nothing_written = record { held = []; below = [] }

abbrev swapped : Buffer
swapped = record { held = []; below = 2 ∷ 1 ∷ [] }

awrite_overtakes_write_example : below swapped ≡ below nothing_written ++ ((2 ∷ []) ++ (1 ∷ []))
awrite_overtakes_write_example =
    awrite_overtakes_write (λ n c. pure 0) standard empty 0 below held raw put_below hold empty_out
      (1 ∷ []) (2 ∷ []) true nothing_written swapped refl refl refl put_below-WritesRaw
      hold-KeepsWrites refl write_runs
