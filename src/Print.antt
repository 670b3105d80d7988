-- ===== src/Print.antt =====
-- py_native_io/print.py: `aprint` and the streams that are made when they are first asked for. `str(o)`,
-- `sys.stdout` and the constructor of `DefaultFileIO` are parameters.
pub mod Once
pub mod Lazy
use asynchstream.Base.{
  ℕ, ◌+◌, ◌/◌, ◌%◌, Bool, true, false, ◌&&◌, Option, none, some, List, [], ◌∷◌, ◌++◌, ltb, is_some,
  ℤ, pos, if◌then◌else◌,
}
use asynchstream.Exec.{
  Exec, Exc, Result, ok, err, too_deep, type_error, value_error, unsupported_operation, pure, raise,
  run, comprehension, ◌>>=◌, ◌>>◌,
}
use asynchstream.Object.{Chunk, bytes, str, Stream}
use asynchstream.Modes.{Mode}
use asynchstream.Utf8.{Text, encode_utf8, or_unicode_error}

-- `sep.join(texts)`
unfoldable pub join_with : Text → List Text → Text
join_with sep [] = []
join_with sep (t ∷ []) = t
join_with sep (t ∷ u ∷ ts) = t ++ (sep ++ join_with sep (u ∷ ts))

-- `except (TypeError, ValueError)`: `io.UnsupportedOperation` is a ValueError too.
abbrev pub is_caught : Exc → Bool
is_caught type_error = true
is_caught value_error = true
is_caught unsupported_operation = true
is_caught _ = false

module _ {W : Type 0} where
  abbrev pub recover : {A : Type 0} → Exec W A → Result A → Exec W A
  recover handler (ok a) = pure a
  recover handler (err e) = if is_caught e then handler else raise e
  recover handler too_deep = λ loop w. (too_deep, w)

  -- `try: m` with that handler.
  abbrev pub try_except : {A : Type 0} → Exec W A → Exec W A → Exec W A
  try_except m handler loop w = let (r, w') = m loop w in recover handler r loop w'

  abbrev pub flush_present : Option (Exec W Unit) → Exec W Unit
  flush_present none = pure tt
  flush_present (some flush) = flush

  -- The `if` and the `elif` after the asynchronous write.
  unfoldable pub flush_after : Bool → Stream W → Exec W Unit
  flush_after flush t = if flush && is_some t.aflush then run t.aflush else flush_present t.flush

  abbrev pub write_to :
      Option (Chunk → Exec W ℕ)
      → Option (Chunk → Exec W ℕ)
      → Stream W
      → Bool
      → Text
      → List ℕ
      → Exec W Unit
  unfolding flush_after
  write_to (some awrite) _ t flush output buf = do
    try_except (awrite (bytes buf)) (awrite (str output))
    flush_after flush t
  write_to none (some write) t flush output buf = do write (str output); flush_present t.flush
  write_to none none t flush output buf = pure tt

  -- `sys.stdout if file is None else file`
  abbrev pub target_file : Stream W → Option (Stream W) → Stream W
  target_file sys_stdout none = sys_stdout
  target_file sys_stdout (some file) = file

module _ {W O : Type 0} (to_str : O → Exec W Text) (sys_stdout : Stream W) where
  unfoldable pub aprint : List O → Text → Text → Option (Stream W) → Bool → Exec W Unit
  unfolding comprehension join_with encode_utf8 write_to
  aprint objects sep end file flush = do
    texts ← comprehension to_str objects
    let output = join_with sep texts ++ end
    buf ← or_unicode_error (encode_utf8 output)
    let t = target_file sys_stdout file
    write_to t.awrite t.write t flush output buf

-- The module's globals `_async_stdout` and `_async_stderr`, and the rest of the world.
pub record Globals (W : Type 0) : Type 0 where
  pub async_stdout : Option (Stream W)
  pub async_stderr : Option (Stream W)
  pub world : W

module _ {W : Type 0} where
  -- An action that does not see the globals.
  abbrev pub on_world : {A : Type 0} → Exec W A → Exec (Globals W) A
  on_world m loop g = let (r, w) = m loop g.world in (r, record g { world = w })

  abbrev pub keep : (Option (Stream W) → Globals W → Globals W) → Stream W → Exec (Globals W) Unit
  keep put s loop g = (ok tt, put (some s) g)

  -- A new stream, kept in a global.
  abbrev pub make_stream :
      Exec W (Stream W) → (Option (Stream W) → Globals W → Globals W) → Exec (Globals W) (Stream W)
  make_stream make put = do s ← on_world make; keep put s; pure s

  -- What the global holds, or a new stream if it is None or closed.
  abbrev pub open_stream :
      Exec W (Stream W)
      → (Option (Stream W) → Globals W → Globals W)
      → Option (Stream W)
      → Exec (Globals W) (Stream W)
  open_stream make put none = make_stream make put
  open_stream make put (some s) = do
    closed ← on_world (run s.closed)
    if closed then make_stream make put else pure s

-- The constructor of `DefaultFileIO` is a parameter.
module _ {W : Type 0} (default_file : ℤ → Mode → Exec W (Stream W)) where
  unfoldable pub get_async_stdout : Exec (Globals W) (Stream W)
  get_async_stdout loop g =
      open_stream (default_file (pos 1) (b'w' ∷ [])) (λ s g'. record g' { async_stdout = s })
        g.async_stdout loop g

  unfoldable pub get_async_stderr : Exec (Globals W) (Stream W)
  get_async_stderr loop g =
      open_stream (default_file (pos 2) (b'w' ∷ [])) (λ s g'. record g' { async_stderr = s })
        g.async_stderr loop g
