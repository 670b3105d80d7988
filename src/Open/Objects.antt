-- ===== src/Open/Objects.antt =====
-- py_native_io/patch.py and buffered.py: the streams that `patched_open` composes, as objects.
use asynchstream.Base.{ℕ, suc, ◌≡◌, ◌≢◌, refl, Bool, false, Option, ℤ}
use asynchstream.Exec.{Exec, call}
use asynchstream.Object.{Chunk, Stream, Namespace, instantiate}
use asynchstream.Meta.{
  new_class, synth_aread, synth_aread_batch, synth_awrite, synth_awrite_batch, synth_aclose,
  synth_aflush, auto_aread, auto_awrite,
}
use asynchstream.Modes.{Kind, reader, writer, random}
use asynchstream.Utf8.{Text}
use asynchstream.File.{Raw, native, fallback, fallback_body}
use asynchstream.File.Fallback.{fallback_file_io_class}
use asynchstream.Open.{Opened, original, raw_stream, buffered, text}
use asynchstream.Buffered.{
  Codecs, buffered_body, buffered_aread, buffered_awrite, buffered_class, text_class,
}

-- What the standard library gives an object of its buffered classes, over a raw stream, and of its text
-- class, over a buffer; and the attributes `encoding` and `errors` for the arguments of the text class.
pub record Standard (W : Type 0) : Type 0 where
  pub buffered_over : Kind → Stream W → Namespace W
  pub text_over : Stream W → Namespace W
  pub encoding_of : Option Text → Option Text
  pub errors_of : Option Text → Option Text

module _ {W : Type 0} (os_write : ℤ → Chunk → Exec W ℕ) (io_base : Namespace W) (std : Standard W)
    (codecs : Codecs W) (depth : ℕ) where
  pub raw_object : Raw W → Stream W
  raw_object (native s) = s
  raw_object (fallback sync) =
      instantiate (suc depth) (fallback_file_io_class os_write io_base sync)

  buffered_object : Kind → Stream W → Stream W
  buffered_object kind raw =
      instantiate (suc depth)
        (buffered_class os_write (std.buffered_over kind raw) io_base kind raw)

  text_object : Stream W → Option Text → Option Text → Stream W
  text_object buffer encoding errors = instantiate (suc depth) (
      text_class os_write (std.text_over buffer) io_base codecs (record {
        buffer = buffer;
        encoding = std.encoding_of encoding;
        errors = std.errors_of errors;
      }))

  pub opened_object : Opened W (Raw W) → Stream W
  unfolding raw_object buffered_object text_object
  opened_object (original o) = o
  opened_object (raw_stream raw) = raw_object raw
  opened_object (buffered kind raw size) = buffered_object kind (raw_object raw)
  opened_object (text kind raw size encoding errors newline) =
      text_object (buffered_object kind (raw_object raw)) encoding errors

  -- The raw stream's methods, which run the synchronous ones in a thread.
  module _ (sync : Stream W) (loop : Bool) (w : W) where
    raw_object-aread :
        (size : ℤ)
        → call (raw_object (fallback sync)).aread size loop w ≡ call sync.read size false w
    unfolding raw_object instantiate fallback_body new_class synth_aread synth_aread_batch
        synth_awrite synth_awrite_batch synth_aclose synth_aflush auto_aread
    raw_object-aread size = refl

    raw_object-awrite :
        (b : Chunk) → call (raw_object (fallback sync)).awrite b loop w ≡ call sync.write b false w
    unfolding raw_object instantiate fallback_body new_class synth_aread synth_aread_batch
        synth_awrite synth_awrite_batch synth_aclose synth_aflush auto_awrite
    raw_object-awrite b = refl

    buffered_object-aread :
        (kind : Kind) (size : ℤ)
        → kind ≢ writer
        → call (buffered_object kind (raw_object (fallback sync))).aread size loop w
          ≡ call sync.read size false w
    unfolding buffered_object raw_object instantiate fallback_body buffered_body buffered_aread
        new_class synth_aread synth_aread_batch synth_awrite synth_awrite_batch synth_aclose
        synth_aflush auto_aread
    buffered_object-aread reader size h = refl
    buffered_object-aread random size h = refl
    buffered_object-aread writer size h = absurd (h refl)

    buffered_object-awrite :
        (kind : Kind) (b : Chunk)
        → kind ≢ reader
        → call (buffered_object kind (raw_object (fallback sync))).awrite b loop w
          ≡ call sync.write b false w
    unfolding buffered_object raw_object instantiate fallback_body buffered_body buffered_awrite
        new_class synth_aread synth_aread_batch synth_awrite synth_awrite_batch synth_aclose
        synth_aflush auto_awrite
    buffered_object-awrite writer b h = refl
    buffered_object-awrite random b h = refl
    buffered_object-awrite reader b h = absurd (h refl)

  -- Over the fallback engine, on the raw stream, on a buffered one of a class that reads, and on one of a
  -- class that writes, `aread` and `awrite` do what the built-in stream's `read` and `write` do in a thread
  -- with no running event loop.
  pub opened_over_fallback :
      (k k' : Kind) (sync : Stream W) (buffering size : ℤ) (b : Chunk) (loop : Bool) (w : W)
      → k ≢ writer
      → k' ≢ reader
      → let raw = opened_object (raw_stream (fallback sync)) in
        let o = opened_object (buffered k (fallback sync) buffering) in
        let o' = opened_object (buffered k' (fallback sync) buffering) in
        (call raw.aread size loop w ≡ call sync.read size false w)
        × (call raw.awrite b loop w ≡ call sync.write b false w)
        × (call o.aread size loop w ≡ call sync.read size false w)
        × (call o'.awrite b loop w ≡ call sync.write b false w)
  unfolding opened_object
  opened_over_fallback k k' sync buffering size b loop w h h' = (
    raw_object-aread sync loop w size,
    raw_object-awrite sync loop w b,
    buffered_object-aread sync loop w k size h,
    buffered_object-awrite sync loop w k' b h',
  )
