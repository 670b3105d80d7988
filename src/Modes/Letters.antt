-- ===== src/Modes/Letters.antt =====
-- py_native_io/patch.py: the letters of a mode, against what `open` documents of them.
use asynchstream.Base.{
  ◌⊎◌, ℕ, ◌≡◌, ◌≢◌, refl, Bool, true, false, not, ◌||◌, [], ◌∷◌, ◌++◌, contains, arith,
}
use asynchstream.Modes.{Mode, Kind, reader, writer, random, replace_plus, raw_mode, open_kind}

contains-append : (c : ℕ) (m n : Mode) → contains c (m ++ n) ≡ (contains c m || contains c n)
contains-append c [] n = refl
contains-append c (x ∷ m) n = ground (arith, contains-append c m n)

contains-replace_plus : (c : ℕ) (m : Mode) → c ≢ b'b' → contains c (replace_plus m) ≡ contains c m
unfolding replace_plus
contains-replace_plus c [] h = refl
contains-replace_plus c (x ∷ m) h = ground (arith, contains-replace_plus c m h)

contains_b-replace_plus :
    (m : Mode) → contains b'b' (replace_plus m) ≡ (contains b'b' m || contains b'+' m)
unfolding replace_plus
contains_b-replace_plus [] = refl
contains_b-replace_plus (x ∷ m) = ground (arith, contains_b-replace_plus m)

-- The mode of the raw stream has the letter b exactly when the mode has it or has no t, and every other
-- letter exactly when the mode has it.
pub raw_mode_letters :
    (m : Mode) (c : ℕ)
    → (contains b'b' (raw_mode m) ≡ (contains b'b' m || not (contains b't' m)))
      × (c ≢ b'b' → contains c (raw_mode m) ≡ contains c m)
unfolding raw_mode
raw_mode_letters m c = (
  ground (arith, contains-append b'b' m (b'b' ∷ []), contains_b-replace_plus m),
  λ h. ground (arith, contains-append c m (b'b' ∷ []), contains-replace_plus c m h),
)

-- What a mode asks for, as `open` documents it.
pub data Action : Type 0 where
  reading writing appending exclusive : Action

pub record Request : Type 0 where
  pub action : Action
  pub update : Bool
  pub binary : Bool

abbrev pub is_reading : Action → Bool
is_reading reading = true
is_reading _ = false

abbrev is_writing : Action → Bool
is_writing writing = true
is_writing _ = false

abbrev is_appending : Action → Bool
is_appending appending = true
is_appending _ = false

abbrev is_exclusive : Action → Bool
is_exclusive exclusive = true
is_exclusive _ = false

-- The mode has the letters of the request, in any order.
pub record Spells (m : Mode) (q : Request) : Type 0 where
  pub letter_r : contains b'r' m ≡ is_reading q.action
  pub letter_w : contains b'w' m ≡ is_writing q.action
  pub letter_a : contains b'a' m ≡ is_appending q.action
  pub letter_x : contains b'x' m ≡ is_exclusive q.action
  pub letter_plus : contains b'+' m ≡ q.update
  pub letter_b : contains b'b' m ≡ q.binary

-- The buffered class that `open` documents: random access for updating, a reader for reading, and a
-- writer for writing, appending and exclusive creation.
abbrev pub documented_kind : Action → Bool → Kind
documented_kind action true = random
documented_kind reading false = reader
documented_kind _ false = writer

pub open_kind-Spells :
    (m : Mode) (q : Request)
    → Spells m q
    → (q.action ≢ exclusive) ⊎ (q.update ≡ true)
    → open_kind m ≡ documented_kind q.action q.update
unfolding open_kind
open_kind-Spells m q s h = ground arith

pub open_kind_exclusive :
    (m : Mode) (q : Request)
    → Spells m q
    → q.action ≡ exclusive
    → q.update ≡ false
    → open_kind m ≡ reader
unfolding open_kind
open_kind_exclusive m q s x u = ground arith
