-- ===== src/Open/Shape.antt =====
-- py_native_io/patch.py: the stream that `patched_open` composes, against the documentation of `open`.
use asynchstream.Base.{
  ◌≡◌, ◌≢◌, ◌∙◌, Bool, true, false, ◌⊎◌, Option, none, some, ℤ, pos, negsuc, zero, suc, refl, ltb,
  is_zero, is_positive, contains, arith, if◌then◌else◌,
}
use asynchstream.Exec.{Result, ok, err, too_deep, value_error, continue, ◌>>=◌}
use asynchstream.Modes.{Kind, reader, open_kind, buffer_size}
use asynchstream.Modes.Letters.{
  exclusive, Request, Spells, documented_kind, open_kind-Spells, open_kind_exclusive,
}
use asynchstream.File.{OpenCall, Raw}
use asynchstream.Open.{
  Python, Opened, original, raw_stream, buffered, text, patched_open, over_raw, open_raw,
  is_file_name,
}

-- How a stream is composed, with the size of its buffer.
pub data Shape : Type 0 where
  passed_on unbuffered : Shape
  binary_over text_over : Kind → ℤ → Shape

abbrev pub shape : {W R : Type 0} → Opened W R → Shape
shape (original o) = passed_on
shape (raw_stream raw) = unbuffered
shape (buffered kind raw size) = binary_over kind size
shape (text kind raw size encoding errors newline) = text_over kind size

-- The composition for a class of buffers of a size, `none` for what is refused: text cannot be
-- unbuffered.
abbrev shape_with : Kind → Bool → ℤ → ℤ → Option Shape
shape_with kind binary size buffering =
    if binary
    then (if is_zero buffering then some unbuffered else some (binary_over kind size))
    else if is_zero buffering
    then none
    else some (text_over kind size)

-- With the buffer size that the code takes.
abbrev pub shape_of : Kind → Bool → ℤ → ℤ → Option Shape
shape_of kind binary default buffering =
    shape_with kind binary (if is_positive buffering then buffering else default) buffering

-- The buffer size that `open` documents: 1 is line buffering, over a buffer of the default size.
abbrev documented_size : ℤ → ℤ → ℤ
documented_size default (pos n) = if ltb 1 n then pos n else default
documented_size default (negsuc n) = default

-- What `open` documents of a request.
abbrev pub documented_shape : Request → ℤ → ℤ → Option Shape
documented_shape q default buffering =
    shape_with (documented_kind q.action q.update) q.binary (documented_size default buffering)
      buffering

-- The code's size is the documented one, but for line buffering.
documented_size_lem :
    (default buffering : ℤ)
    → buffering ≢ pos 1
    → documented_size default buffering ≡ (if is_positive buffering then buffering else default)
documented_size_lem default (pos zero) h = refl
documented_size_lem default (pos (suc zero)) h = absurd (h refl)
documented_size_lem default (pos (suc (suc n))) h = ground arith
documented_size_lem default (negsuc n) h = refl

module _ {W : Type 0} (py : Python W) (c : OpenCall W) where
  -- The composition that the code's own letter tests choose.
  abbrev chosen_shape : Option Shape
  chosen_shape =
      shape_of (open_kind c.mode) (contains b'b' c.mode) py.default_buffer_size c.buffering

  over_raw-shape :
      (raw : Raw W) (loop : Bool) (w w' : W) (o : Opened W (Raw W))
      → over_raw py c raw loop w ≡ (ok o, w')
      → chosen_shape ≡ some (shape o)
  unfolding over_raw buffer_size
  over_raw-shape raw loop w w' o h = ground arith

  after_raw-shape :
      (r : Result (Raw W)) (loop : Bool) (w w' : W) (o : Opened W (Raw W))
      → continue r (over_raw py c) loop w ≡ (ok o, w')
      → chosen_shape ≡ some (shape o)
  after_raw-shape (ok raw) loop w w' o h = over_raw-shape raw loop w w' o h
  after_raw-shape (err e) loop w w' o h = cc
  after_raw-shape too_deep loop w w' o h = cc

module _ {W : Type 0} (py : Python W) (c : OpenCall W) (named : is_file_name c.file ≡ true)
    (no_opener : c.opener ≡ none) where
  pub patched_open_lem :
      (loop : Bool) (w : W)
      → patched_open py c loop w ≡ (do raw ← open_raw py c; over_raw py c raw) loop w
  unfolding patched_open
  patched_open_lem loop w = simp (named, no_opener)

  opened-shape :
      (loop : Bool) (w w' : W) (o : Opened W (Raw W))
      → patched_open py c loop w ≡ (ok o, w')
      → chosen_shape py c ≡ some (shape o)
  opened-shape loop w w' o h =
      let (r, w1) = open_raw py c loop w in
      after_raw-shape py c r loop w1 w' o (rw patched_open_lem at h)

  -- For a file name or descriptor and no opener, a buffering other than 1, and a mode without t that spells a
  -- request, in any order of its letters, other than exclusive creation without +: a stream that
  -- `patched_open` returns is composed as `open` documents: raw, or one buffered class of the right kind, or
  -- text over such, with the given buffer size if it is above 1 and the default one if it is negative; and
  -- never unbuffered text.
  pub patched_open-shape :
      (q : Request)
      → Spells c.mode q
      → (q.action ≢ exclusive) ⊎ (q.update ≡ true)
      → contains b't' c.mode ≡ false
      → c.buffering ≢ pos 1
      → (loop : Bool) (w w' : W) (o : Opened W (Raw W)) → patched_open py c loop w ≡ (ok o, w')
      → documented_shape q py.default_buffer_size c.buffering ≡ some (shape o)
  patched_open-shape q s x t l loop w w' o h =
      rw
        (
          documented_size_lem py.default_buffer_size c.buffering l,
          ← open_kind-Spells c.mode q s x,
          ← s.letter_b,
        )
        (opened-shape loop w w' o h)

  -- For a file name or descriptor, no opener, nonzero buffering, and a mode that spells exclusive creation
  -- without +, a stream that `patched_open` returns is composed over a reader, which is not what `open`
  -- documents.
  pub exclusive_opens_reader :
      (q : Request)
      → Spells c.mode q
      → q.action ≡ exclusive
      → q.update ≡ false
      → is_zero c.buffering ≡ false
      → (loop : Bool) (w w' : W) (o : Opened W (Raw W)) → patched_open py c loop w ≡ (ok o, w')
      → (shape_of reader q.binary py.default_buffer_size c.buffering ≡ some (shape o))
        × (documented_shape q py.default_buffer_size c.buffering ≢ some (shape o))
  exclusive_opens_reader q s x u z loop w w' o h =
      ground (arith, opened-shape loop w w' o h, open_kind_exclusive c.mode q s x u, s.letter_b)

  -- For a file name or descriptor and no opener, a mode without b and buffering 0: where the raw stream
  -- opens, `patched_open` raises ValueError in the state after that opening, and does nothing more.
  pub unbuffered_text_fails_late :
      contains b'b' c.mode ≡ false
      → is_zero c.buffering ≡ true
      → (loop : Bool) (w w' : W) (raw : Raw W) → open_raw py c loop w ≡ (ok raw, w')
      → patched_open py c loop w ≡ (err value_error, w')
  unfolding over_raw
  unbuffered_text_fails_late b z loop w w' raw h = patched_open_lem loop w ∙ ground (arith, h)
