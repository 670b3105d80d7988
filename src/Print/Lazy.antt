-- ===== src/Print/Lazy.antt =====
-- py_native_io/print.py: the streams for the standard descriptors are made once.
use asynchstream.Base.{◌≡◌, refl, Bool, false, Option, none, some, ℤ, pos, [], ◌∷◌, arith}
use asynchstream.Exec.{Exec, ok, run}
use asynchstream.Object.{Stream}
use asynchstream.Modes.{Mode}
use asynchstream.Print.{Globals, make_stream, open_stream, get_async_stdout}

abbrev put_stdout : {W : Type 0} → Option (Stream W) → Globals W → Globals W
put_stdout s g = record g { async_stdout = s }

-- The stream that a call returns is in the global after it, and the other global is as it was.
module _ {W : Type 0} (make : Exec W (Stream W)) where
  make_stream-kept :
      (s : Stream W) (loop : Bool) (g g' : Globals W)
      → make_stream make put_stdout loop g ≡ (ok s, g')
      → (g'.async_stdout ≡ some s) × (g'.async_stderr ≡ g.async_stderr)
  make_stream-kept s loop g g' h = (ground (arith, h), ground (arith, h))

  open_stream-kept :
      (o : Option (Stream W)) (s : Stream W) (loop : Bool) (g g' : Globals W)
      → g.async_stdout ≡ o
      → open_stream make put_stdout o loop g ≡ (ok s, g')
      → (g'.async_stdout ≡ some s) × (g'.async_stderr ≡ g.async_stderr)
  open_stream-kept none s loop g g' e h = make_stream-kept s loop g g' h
  open_stream-kept (some s0) s loop g g' e h =
      let g1 = record g { world = (run s0.closed loop g.world).1 } in
      let k = make_stream-kept s loop g1 g' in (ground (arith, e, h, k), ground (arith, e, h, k))

module _ {W : Type 0} (default_file : ℤ → Mode → Exec W (Stream W)) where
  -- If `get_async_stdout` returns a stream that then says, changing nothing, that it is not closed, the next
  -- call returns the same stream and changes nothing; and the first call left the global of stderr alone.
  pub get_async_stdout-again :
      (s : Stream W) (loop : Bool) (g g' : Globals W)
      → get_async_stdout default_file loop g ≡ (ok s, g')
      → run s.closed loop g'.world ≡ (ok false, g'.world)
      → (get_async_stdout default_file loop g' ≡ (ok s, g')) × (g'.async_stderr ≡ g.async_stderr)
  unfolding get_async_stdout
  get_async_stdout-again s loop g g' h c =
      let (k, other) =
        open_stream-kept (default_file (pos 1) (b'w' ∷ [])) g.async_stdout s loop g g' refl h in
      (rw (k, c), other)
