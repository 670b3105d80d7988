-- ===== src/Buffered.antt =====
-- py_native_io/buffered.py: the three buffered classes and the text class. What the standard classes and
-- `io.IOBase` give is a parameter, and so are `encode` and `decode` for any encoding.
pub mod Direct
pub mod TextPart
use asynchstream.Base.{ℕ, Bool, Option, none, some, List, [], ◌∷◌, ℤ, is_empty, if◌then◌else◌}
use asynchstream.Exec.{Exec, pure, raise, attribute_error, ◌>>=◌}
use asynchstream.Object.{Chunk, bytes, str, Spec, Stream, Method, Namespace, empty, inherit}
use asynchstream.Meta.{new_class}
use asynchstream.Stream.{
  base_aread, base_aread_batch, base_awrite, base_awrite_batch, async_io_base,
}
use asynchstream.Modes.{Kind, reader, writer, random}
use asynchstream.Utf8.{Text}

module _ {W : Type 0} where
  -- `if hasattr(raw, …)`: the method of the raw stream, or else that of `super()`, which is `AsyncIOBase`.
  unfoldable pub prefer : {A B : Type 0} → Option (A → Exec W B) → (A → Exec W B) → A → Exec W B
  prefer none base = base
  prefer (some m) base = m

  -- The methods, for an object whose `raw` is `raw`.
  unfoldable pub buffered_aread : Stream W → Method W (ℤ → Exec W Chunk)
  unfolding prefer
  buffered_aread raw self = prefer raw.aread (base_aread self)

  unfoldable pub buffered_aread_batch : Stream W → Method W (List Spec → Exec W (List Chunk))
  unfolding prefer
  buffered_aread_batch raw self = prefer raw.aread_batch (base_aread_batch self)

  unfoldable pub buffered_awrite : Stream W → Method W (Chunk → Exec W ℕ)
  unfolding prefer
  buffered_awrite raw self = prefer raw.awrite (base_awrite self)

  unfoldable pub buffered_awrite_batch : Stream W → Method W (List Chunk → Exec W (List ℕ))
  unfolding prefer
  buffered_awrite_batch raw self = prefer raw.awrite_batch (base_awrite_batch self)

  -- The bodies of AsyncBufferedReader, AsyncBufferedWriter and AsyncBufferedRandom.
  unfoldable pub buffered_body : Kind → Stream W → Namespace W
  buffered_body reader raw = record empty {
    aread = some (buffered_aread raw);
    aread_batch = some (buffered_aread_batch raw);
  }
  buffered_body writer raw = record empty {
    awrite = some (buffered_awrite raw);
    awrite_batch = some (buffered_awrite_batch raw);
  }
  buffered_body random raw = record empty {
    aread = some (buffered_aread raw);
    aread_batch = some (buffered_aread_batch raw);
    awrite = some (buffered_awrite raw);
    awrite_batch = some (buffered_awrite_batch raw);
  }

-- `s.encode(encoding, errors)` and `b.decode(encoding, errors)`, by the names of both.
pub record Codecs (W : Type 0) : Type 0 where
  pub encode : Text → Text → Text → Exec W (List ℕ)
  pub decode : Text → Text → List ℕ → Exec W Text

-- `name or default`
abbrev pub or_default : Text → Option Text → Text
or_default default none = default
or_default default (some name) = if is_empty name then default else name

abbrev pub utf8_name : Text
utf8_name = b'u' ∷ b't' ∷ b'f' ∷ b'-' ∷ b'8' ∷ []

abbrev pub strict_name : Text
strict_name = b's' ∷ b't' ∷ b'r' ∷ b'i' ∷ b'c' ∷ b't' ∷ []

-- What an AsyncTextIOWrapper is made of: `buffer`, `encoding` and `errors`.
pub record TextLayer (W : Type 0) : Type 0 where
  pub buffer : Stream W
  pub encoding : Option Text
  pub errors : Option Text

module _ {W : Type 0} (codecs : Codecs W) where
  -- A text has no `decode`.
  decoded : Text → Text → Chunk → Exec W Chunk
  decoded encoding errors (bytes b) = do t ← codecs.decode encoding errors b; pure (str t)
  decoded encoding errors (str s) = raise attribute_error

  -- `res_super.decode("utf-8") if isinstance(res_super, bytes) else str(res_super)`
  as_text : Chunk → Exec W Chunk
  as_text (bytes b) = do t ← codecs.decode utf8_name strict_name b; pure (str t)
  as_text (str s) = pure (str s)

  -- What `awrite` hands to the buffer.
  encoded_text : Text → Text → Chunk → Exec W Chunk
  encoded_text encoding errors (str s) = do b ← codecs.encode encoding errors s; pure (bytes b)
  encoded_text encoding errors (bytes b) = pure (bytes b)

  read_text : Option (ℤ → Exec W Chunk) → TextLayer W → Stream W → ℤ → Exec W Chunk
  unfolding decoded as_text
  read_text (some m) t self size = do
    raw_bytes ← m size
    decoded (or_default utf8_name t.encoding) (or_default strict_name t.errors) raw_bytes
  read_text none t self size = do res_super ← base_aread self size; as_text res_super

  write_text : Option (Chunk → Exec W ℕ) → Stream W → Chunk → Chunk → Exec W ℕ
  write_text (some m) self s encoded = m encoded
  write_text none self s encoded = base_awrite self s

  unfoldable pub text_aread : TextLayer W → Method W (ℤ → Exec W Chunk)
  unfolding read_text
  text_aread t self = read_text t.buffer.aread t self

  unfoldable pub text_awrite : TextLayer W → Method W (Chunk → Exec W ℕ)
  unfolding encoded_text write_text
  text_awrite t self s = do
    encoded ← encoded_text (or_default utf8_name t.encoding) (or_default strict_name t.errors) s
    write_text t.buffer.awrite self s encoded

  -- The body of AsyncTextIOWrapper.
  unfoldable pub text_body : TextLayer W → Namespace W
  text_body t = record empty { aread = some (text_aread t); awrite = some (text_awrite t) }

module _ {W : Type 0} (os_write : ℤ → Chunk → Exec W ℕ) (standard io_base : Namespace W) where
  -- The classes, each over its standard class and then `AsyncIOBase`.
  abbrev pub buffered_class : Kind → Stream W → Namespace W
  buffered_class kind raw =
      (new_class (buffered_body kind raw) (inherit standard (async_io_base os_write io_base))).cls

  abbrev pub text_class : Codecs W → TextLayer W → Namespace W
  text_class codecs t =
      (new_class (text_body codecs t) (inherit standard (async_io_base os_write io_base))).cls
