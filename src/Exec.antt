-- ===== src/Exec.antt =====
-- Python statements as actions: they read the thread that they run in, change a world and may raise.
-- A coroutine is the action that awaiting it performs; asyncio itself is third-party code, and only
-- what base.py and patch.py rely on of it is stated here.
pub mod Lists
use asynchstream.Base.{Bool, true, false, Option, none, some, List, [], ◌∷◌}

-- The exceptions that the program raises or catches; any other one has a number, and so has one that is
-- no `Exception`, such as KeyboardInterrupt or the panic of a Rust extension.
pub data Exc : Type 0 where
  runtime_error value_error type_error attribute_error : Exc
  unsupported_operation not_implemented_error os_error import_error : Exc
  other : Prim.Native.Nat.ℕ → Exc
  base_exception : Prim.Native.Nat.ℕ → Exc

-- What `except Exception` catches.
abbrev pub is_exception : Exc → Bool
is_exception (base_exception n) = false
is_exception _ = true

-- `too_deep`: the bound on how deep an object's methods may call one another is used up.
pub data Result {ℓ} (A : Type ℓ) : Type ℓ where
  ok : A → Result A
  err : Exc → Result A
  too_deep : Result A

abbrev pub is_ok {ℓ} : {A : Type ℓ} → Result A → Bool
is_ok (ok a) = true
is_ok (err e) = false
is_ok too_deep = false

-- The Boolean says whether the thread has a running event loop.
abbrev pub Exec {ℓ} : Type ℓ → Type ℓ → Type ℓ
Exec W A = Bool → W → Result A × W

module _ {ℓ} {W A : Type ℓ} where
  abbrev pub pure : A → Exec W A
  pure a loop w = (ok a, w)

  abbrev pub raise : Exc → Exec W A
  raise e loop w = (err e, w)

  abbrev pub give_up : Exec W A
  give_up loop w = (too_deep, w)

  -- `await asyncio.to_thread(f)`: a worker thread has no running event loop.
  abbrev pub to_thread : Exec W A → Exec W A
  to_thread m loop w = m false w

  -- `asyncio.run(c)` refuses to run inside a running loop, and is one to the coroutine.
  abbrev pub asyncio_run : Exec W A → Exec W A
  asyncio_run m true w = (err runtime_error, w)
  asyncio_run m false w = m true w

  -- `asyncio.get_running_loop()`, with the handler that turns its exception into `None`.
  abbrev pub in_running_loop : (Bool → Exec W A) → Exec W A
  in_running_loop k loop w = k loop loop w

  -- `o.f()`
  abbrev pub run : Option (Exec W A) → Exec W A
  run none = raise attribute_error
  run (some m) = m

module _ {ℓ} {W A B : Type ℓ} where
  abbrev pub continue : Result A → (A → Exec W B) → Exec W B
  continue (ok a) f loop w = f a loop w
  continue (err e) f loop w = (err e, w)
  continue too_deep f loop w = (too_deep, w)

  -- `o.f(a)`, of an attribute that may be missing.
  abbrev pub call : Option (A → Exec W B) → A → Exec W B
  call none a = raise attribute_error
  call (some f) a = f a

  infixl 10 ◌>>=◌ ◌>>◌
  abbrev pub ◌>>=◌ : Exec W A → (A → Exec W B) → Exec W B
  ◌>>=◌ m f loop w = let (r, w') = m loop w in continue r f loop w'

  abbrev pub ◌>>◌ : Exec W A → Exec W B → Exec W B
  m >> n = m >>= λ _. n

module _ {ℓ} {W A B : Type ℓ} where
  -- `[f(x) for x in xs]`, where `f` may raise.
  unfoldable pub comprehension : (A → Exec W B) → List A → Exec W (List B)
  comprehension f [] = pure []
  comprehension f (x ∷ xs) = do y ← f x; ys ← comprehension f xs; pure (y ∷ ys)
