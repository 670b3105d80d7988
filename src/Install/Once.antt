-- ===== src/Install/Once.antt =====
-- py_native_io/patch.py: patching the interpreter again, and what the original `open` is then.
use asynchstream.Base.{
  ℕ, ◌≡◌, refl, Bool, true, false, Option, first, none, some, inl, inr, is_some, Option-cases,
  arith,
}
use asynchstream.Exec.{ok, ◌>>◌}
use asynchstream.File.{FileClass}
use asynchstream.Install.{
  Callable, foreign, patched_open, Interpreter, patch_python_io, or_open, found_open,
  import_package, sitecustomize,
}

-- What may happen to an interpreter: the package's own functions, and other code that gives `open` or
-- `makefile` another function. That function is not one of the package.
pub data Step (s t : Interpreter) : Type 0 where
  patch :
      (file_class : FileClass) (loop : Bool) → t ≡ (patch_python_io file_class loop s).1 → Step s t
  import_it :
      (file_class : FileClass) (available loop : Bool)
      → t ≡ (import_package file_class available loop s).1
      → Step s t
  start_up :
      (file_class : FileClass) (available loop : Bool)
      → t ≡ (sitecustomize file_class available loop s).1
      → Step s t
  rebind_open :
      (n : ℕ)
      → t ≡ record s { builtins = record s.builtins { open_function = foreign n } }
      → Step s t
  rebind_makefile :
      (n : ℕ) → t ≡ record s { socket = record s.socket { makefile = some (foreign n) } } → Step s t

pub data Reach (s : Interpreter) : Interpreter → Type 0 where
  here : Reach s s
  later : {t u : Interpreter} → Reach s t → Step t u → Reach s u

-- The original `open` is one that is not of the package, and where `_orig_open` is not there, neither is
-- `open`.
abbrev pub IsForeign : Callable → Type 0
IsForeign f = (n : ℕ) × (f ≡ foreign n)

or_open-IsForeign :
    (o : Option Callable) (f : Callable) (n : ℕ)
    → IsForeign (or_open o f)
    → IsForeign (or_open o (foreign n))
or_open-IsForeign none f n h = (n, refl)
or_open-IsForeign (some g) f n h = h

Step-IsForeign :
    {s t : Interpreter} → Step s t → IsForeign (found_open s) → IsForeign (found_open t)
unfolding patch_python_io import_package sitecustomize
Step-IsForeign (patch c loop e) (n, h) = (n, ground (arith, e, h))
Step-IsForeign (import_it c a loop e) (n, h) = (n, ground (arith, e, h))
Step-IsForeign (start_up c a loop e) (n, h) = (n, ground (arith, e, h))
Step-IsForeign {s} (rebind_open n e) h =
    rw e (or_open-IsForeign s.builtins.orig_open s.builtins.open_function n h)
Step-IsForeign (rebind_makefile n e) (m, h) = (m, ground (arith, e, h))

Step-keeps :
    {s t : Interpreter} (f : Callable)
    → Step s t
    → s.builtins.orig_open ≡ some f
    → t.builtins.orig_open ≡ some f
unfolding patch_python_io import_package sitecustomize
Step-keeps f (patch c loop e) h = ground (arith, e, h)
Step-keeps f (import_it c a loop e) h = ground (arith, e, h)
Step-keeps f (start_up c a loop e) h = ground (arith, e, h)
Step-keeps f (rebind_open n e) h = ground (arith, e, h)
Step-keeps f (rebind_makefile n e) h = ground (arith, e, h)

Reach-IsForeign :
    {s t : Interpreter} → Reach s t → IsForeign (found_open s) → IsForeign (found_open t)
Reach-IsForeign here h = h
Reach-IsForeign (later r st) h = Step-IsForeign st (Reach-IsForeign r h)

Reach-keeps :
    {s t : Interpreter} (f : Callable)
    → Reach s t
    → s.builtins.orig_open ≡ some f
    → t.builtins.orig_open ≡ some f
Reach-keeps f here h = h
Reach-keeps f (later r st) h = Step-keeps f st (Reach-keeps f r h)

-- For an interpreter whose original `open` is not of the package, and any sequence of patchings, imports,
-- starts, and rebindings of `open` or `makefile` to other code's functions: once `_orig_open` is there, the
-- `open` that `patched_open` and `FallbackFileIO` fall back to is never of the package and never changes.
pub found_open-IsForeign :
    {s t u : Interpreter} (n : ℕ)
    → found_open s ≡ foreign n
    → Reach s t
    → Reach t u
    → is_some t.builtins.orig_open ≡ true
    → IsForeign (found_open u) × (found_open u ≡ found_open t)
found_open-IsForeign {t = t} {u = u} n h r r' o =
    let same : found_open u ≡ found_open t = elim (Option-cases t.builtins.orig_open) [
      | inl e ↦ ground (arith, e, o)
      | inr (f, e) ↦ ground (arith, e, Reach-keeps f r' e)
    ] in
    (Reach-IsForeign r' (Reach-IsForeign r (n, h)), same)

-- Importing the package and patching again after `sitecustomize` does nothing, whatever the interpreter.
pub sitecustomize_again :
    (file_class : FileClass) (loop : Bool) (s : Interpreter)
    → (do sitecustomize file_class true; import_package file_class true; patch_python_io file_class)
        loop s
      ≡ sitecustomize file_class true loop s
unfolding patch_python_io import_package sitecustomize
sitecustomize_again c loop s = ground arith

-- In an interpreter with no `_orig_open` that has not imported the package: `sitecustomize` makes both
-- `open` names the patched one, keeps the former `open` to fall back to and a former `makefile` under its
-- name; and if the package is not found, it does nothing and raises nothing.
pub sitecustomize_patches :
    (file_class : FileClass) (loop : Bool) (s : Interpreter)
    → s.builtins.orig_open ≡ none
    → s.imported ≡ false
    → let t = (sitecustomize file_class true loop s).1 in
      (t.builtins.open_function ≡ patched_open)
      × (t.io.open_function ≡ patched_open)
      × (t.socket.orig_makefile ≡ first s.socket.makefile s.socket.orig_makefile)
      × (found_open t ≡ s.builtins.open_function)
      × (sitecustomize file_class false loop s ≡ (ok tt, s))
unfolding patch_python_io import_package sitecustomize
sitecustomize_patches c loop s h i = (
  ground (arith, h),
  ground (arith, h),
  ground (arith, h),
  ground (arith, h),
  ground (arith, h, i),
)
