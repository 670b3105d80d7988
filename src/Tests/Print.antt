-- ===== src/Tests/Print.antt =====
-- The theorems on printing, at small inputs.
use mathlib.Core.Path.{subst}
use mathlib.Core.Option.{some-injective}
use asynchstream.Base.{
  ℕ, ◌+◌, ◌≡◌, refl, true, false, Bool, none, some, List, [], ◌∷◌, ◌++◌, length, ℤ, arith,
}
use asynchstream.Exec.{Exec, is_ok, ok, err, pure, type_error, comprehension}
use asynchstream.Object.{Chunk, bytes, str, Stream, empty}
use asynchstream.Utf8.{Text, encode_char, encode_utf8, is_scalar}
use asynchstream.Print.{join_with, flush_after, aprint, Globals, get_async_stdout}
use asynchstream.Print.Once.{noted, is_ok_or_caught, TakesText, Prints, aprint-once}
use asynchstream.Utf8.RoundTrip.{all, AreCodePoints}

-- A world is what was written. This stream takes text only.
abbrev take_text : Chunk → Exec (List Chunk) ℕ
take_text (bytes b) loop w = (err type_error, w)
take_text (str s) loop w = (ok (length s), w ++ (str s ∷ []))

abbrev text_file : Stream (List Chunk)
text_file = record empty { awrite = some take_text; flush = some (pure tt) }

-- This one takes both, synchronously.
abbrev take_any : Chunk → Exec (List Chunk) ℕ
take_any c loop w = (ok 1, w ++ (c ∷ []))

abbrev sync_file : Stream (List Chunk)
sync_file = record empty { write = some take_any; flush = some (pure tt) }

abbrev to_str : Text → Exec (List Chunk) Text
to_str s = pure s

abbrev two_words : List Text
two_words = (b'a' ∷ []) ∷ (b'b' ∷ []) ∷ []

abbrev line : Text
line = b'a' ∷ 32 ∷ b'b' ∷ 10 ∷ []

aprint_runs :
    aprint to_str sync_file two_words (32 ∷ []) (10 ∷ []) (some text_file) false true []
    ≡ (ok tt, str line ∷ [])
unfolding aprint comprehension join_with encode_utf8 encode_char flush_after
aprint_runs = refl

aprint_stdout_runs :
    aprint to_str sync_file two_words (32 ∷ []) (10 ∷ []) none false true []
    ≡ (ok tt, str line ∷ [])
unfolding aprint comprehension join_with encode_utf8 encode_char
aprint_stdout_runs = refl

-- The euro sign, an emoji and a surrogate.
encode_runs :
    (encode_char 8364 ≡ some (226 ∷ 130 ∷ 172 ∷ []))
    × (encode_char 128512 ≡ some (240 ∷ 159 ∷ 152 ∷ 128 ∷ []))
    × (encode_utf8 (b'a' ∷ 55296 ∷ []) ≡ none)
unfolding encode_char encode_utf8
encode_runs = (refl, refl, refl)

take_text-noted :
    (c : Chunk) (loop : Bool) (w : List Chunk)
    → (take_text c loop w).1 ≡ noted (take_text c loop w).0 c w
take_text-noted (bytes b) loop w = refl
take_text-noted (str s) loop w = refl

-- What holds of an attribute's value holds of what the attribute is found to be.
by_attr : {A : Type 0} (P : A → Type 0) {a f : A} → some a ≡ some f → P a → P f
by_attr P e p = subst P (some-injective _ _ e) p

text_file-TakesText : TakesText text_file (λ w. w)
text_file-TakesText = record {
  awrite_notes = λ f c loop w e.
      by_attr (λ h. (h c loop w).1 ≡ noted (h c loop w).0 c w) e (take_text-noted c loop w);
  awrite_text = λ f s loop w e. by_attr (λ h. is_ok (h (str s) loop w).0 ≡ true) e refl;
  awrite_bytes =
      λ f b loop w e. by_attr (λ h. is_ok_or_caught (h (bytes b) loop w).0 ≡ true) e refl;
  write_text = λ f s loop w e. ground (arith, e);
  flush_keeps =
      λ f loop w e. by_attr (λ h. ((h loop w).0 ≡ ok tt) × ((h loop w).1 ≡ w)) e (refl, refl);
  aflush_keeps = λ f loop w e. ground (arith, e);
}

line_encodes : encode_utf8 line ≡ some line
unfolding encode_utf8 encode_char
line_encodes = refl

aprint-once_example :
    Prints
      (λ w. w)
      line
      (aprint to_str sync_file two_words (32 ∷ []) (10 ∷ []) (some text_file) false)
      true
      []
unfolding join_with
aprint-once_example =
    aprint-once to_str sync_file (λ s. s) (λ o loop w. refl) two_words (32 ∷ []) (10 ∷ [])
      (some text_file) false line (λ w. w) true [] text_file-TakesText refl line_encodes

-- A surrogate among the objects.
abbrev bad_words : List Text
bad_words = (55296 ∷ []) ∷ []

bad_words_lem : all is_scalar (join_with (32 ∷ []) bad_words ++ (10 ∷ [])) ≡ false
unfolding join_with is_scalar
bad_words_lem = refl

bad_words-AreCodePoints : AreCodePoints (join_with (32 ∷ []) bad_words ++ (10 ∷ []))
unfolding join_with
bad_words-AreCodePoints = omega arith

-- The world counts the streams that were made; each says that it is open.
abbrev open_file : Stream ℕ
open_file = record empty { closed = some (pure false) }

abbrev make_file : ℤ → List ℕ → Exec ℕ (Stream ℕ)
make_file n mode loop w = (ok open_file, 1 + w)

abbrev at_start : Globals ℕ
at_start = record { async_stdout = none; async_stderr = none; world = 0 }

abbrev after_one : Globals ℕ
after_one = record { async_stdout = some open_file; async_stderr = none; world = 1 }

get_async_stdout_runs : get_async_stdout make_file true at_start ≡ (ok open_file, after_one)
unfolding get_async_stdout
get_async_stdout_runs = refl
