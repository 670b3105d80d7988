-- ===== src/Ring/Support/Version.antt =====
-- src/engines/linux.rs: the kernel version that a release text spells.
use asynchstream.Base.{
  ℕ, ◌+◌, ◌-◌, ◌*◌, ◌^◌, ◌≤◌, ◌<◌, ◌≡◌, refl, Bool, true, false, ◌&&◌, some, [], ◌∷◌, ◌++◌, arith,
}
use asynchstream.Utf8.{Text}
use asynchstream.Ring.Support.{
  is_ascii_digit, trim_start, before, trim_end, first_part, take_digits, value_from, value_of,
  parse_u32, version, minor_of, parse_kernel_version,
}

-- One digit or more, and the number that they spell behind `acc`.
abbrev pub all_digits : Text → Bool
all_digits [] = true
all_digits (c ∷ cs) = is_ascii_digit c && all_digits cs

abbrev pub spells : ℕ → Text → ℕ
spells acc [] = acc
spells acc (c ∷ cs) = spells (10 * acc + (c - 48)) cs

abbrev pub starts_with_digit : Text → Bool
starts_with_digit [] = false
starts_with_digit (c ∷ cs) = is_ascii_digit c

le-spells : (acc : ℕ) (ds : Text) → acc ≤ spells acc ds
le-spells acc [] = omega arith
le-spells acc (c ∷ cs) = let ih = le-spells (10 * acc + (c - 48)) cs in omega arith

value_from-spells :
    (acc : ℕ) (ds : Text)
    → all_digits ds ≡ true
    → spells acc ds < 2 ^ 32
    → value_from acc ds ≡ some (spells acc ds)
unfolding value_from
value_from-spells acc [] d b = refl
value_from-spells acc (c ∷ cs) d b =
    let m = 10 * acc + (c - 48) in let le = le-spells m cs in ground (arith, value_from-spells m cs)

parse_u32-spells :
    (c : ℕ) (cs : Text)
    → all_digits (c ∷ cs) ≡ true
    → spells 0 (c ∷ cs) < 2 ^ 32
    → parse_u32 (c ∷ cs) ≡ some (spells 0 (c ∷ cs))
unfolding parse_u32 value_of
parse_u32-spells c cs d b = let e = value_from-spells 0 (c ∷ cs) d b in ground arith

first_part-dot :
    (ds rest : Text) → all_digits ds ≡ true → first_part (ds ++ 46 ∷ rest) ≡ (ds, some rest)
unfolding first_part
first_part-dot [] rest d = refl
first_part-dot (c ∷ cs) rest d = let ih = first_part-dot cs rest in ground arith

take_digits-first_part : (t : Text) → take_digits (first_part t).0 ≡ take_digits t
unfolding take_digits first_part
take_digits-first_part [] = refl
take_digits-first_part (c ∷ cs) = let ih = take_digits-first_part cs in ground arith

take_digits-none : (t : Text) → starts_with_digit t ≡ false → take_digits t ≡ []
unfolding take_digits
take_digits-none [] h = refl
take_digits-none (c ∷ cs) h = rw h refl

take_digits-append :
    (ds rest : Text) → all_digits ds ≡ true → take_digits rest ≡ [] → take_digits (ds ++ rest) ≡ ds
unfolding take_digits
take_digits-append [] rest d n = n
take_digits-append (c ∷ cs) rest d n = let ih = take_digits-append cs rest in ground arith

and_first : (a b : Bool) → (a && b) ≡ true → a ≡ true
and_first a b h = ground arith

module _ (is_space : ℕ → Bool)
    (digits_kept : (c : ℕ) → is_ascii_digit c ≡ true → is_space c ≡ false)
    (dot_kept : is_space 46 ≡ false) where
  trim_end-cons :
      (c : ℕ) (cs : Text)
      → is_space c ≡ false
      → trim_end is_space (c ∷ cs) ≡ c ∷ trim_end is_space cs
  unfolding trim_end
  trim_end-cons c cs h = before_kept (trim_end is_space cs)
    where
      before_kept : (t : Text) → before is_space c t ≡ c ∷ t
      before_kept [] = rw h
      before_kept (x ∷ xs) = refl

  trim_end-digits :
      (ds rest : Text)
      → all_digits ds ≡ true
      → trim_end is_space (ds ++ rest) ≡ ds ++ trim_end is_space rest
  trim_end-digits [] rest d = refl
  trim_end-digits (c ∷ cs) rest d =
      let ih = trim_end-digits cs rest in
      let k = digits_kept c in let e = trim_end-cons c (cs ++ rest) in ground arith

  trim_start-digit :
      (c : ℕ) (cs : Text) → is_ascii_digit c ≡ true → trim_start is_space (c ∷ cs) ≡ c ∷ cs
  unfolding trim_start
  trim_start-digit c cs h = rw (digits_kept c h) refl

  trim_end-release :
      (ds es rest : Text)
      → all_digits ds ≡ true
      → all_digits es ≡ true
      → trim_end is_space (ds ++ (46 ∷ (es ++ rest))) ≡ ds ++ (46 ∷ (es ++ trim_end is_space rest))
  trim_end-release ds es rest d1 d2 =
      rw
        (
          trim_end-digits ds (46 ∷ (es ++ rest)) d1,
          trim_end-cons 46 (es ++ rest) dot_kept,
          trim_end-digits es rest d2,
        )
        refl

  take_digits-trim_end : (t : Text) → take_digits t ≡ [] → take_digits (trim_end is_space t) ≡ []
  unfolding take_digits trim_end
  take_digits-trim_end [] n = refl
  take_digits-trim_end (c ∷ cs) n = go (trim_end is_space cs)
    where
      go : (t : Text) → take_digits (before is_space c t) ≡ []
      go [] = ground arith
      go (x ∷ xs) = ground arith

  -- A release of two numbers with a dot between them, and anything but a digit behind, is read as these numbers.
  pub parse_kernel_version-spells :
      (c e : ℕ) (cs es rest : Text)
      → all_digits (c ∷ cs) ≡ true
      → all_digits (e ∷ es) ≡ true
      → starts_with_digit rest ≡ false
      → spells 0 (c ∷ cs) < 2 ^ 32
      → spells 0 (e ∷ es) < 2 ^ 32
      → parse_kernel_version is_space ((c ∷ cs) ++ (46 ∷ ((e ∷ es) ++ rest)))
        ≡ some (spells 0 (c ∷ cs), spells 0 (e ∷ es))
  unfolding parse_kernel_version version minor_of
  parse_kernel_version-spells c e cs es rest d1 d2 n b1 b2 =
      let rest' = trim_end is_space rest in
      let tail' = (e ∷ es) ++ rest' in
      let n' = take_digits-trim_end rest (take_digits-none rest n) in
      rw
        (
          trim_start-digit c (cs ++ (46 ∷ ((e ∷ es) ++ rest))) (and_first _ _ d1),
          trim_end-release (c ∷ cs) (e ∷ es) rest d1 d2,
          first_part-dot (c ∷ cs) tail' d1,
          take_digits-first_part tail',
          take_digits-append (e ∷ es) rest' d2 n',
          parse_u32-spells c cs d1 b1,
          parse_u32-spells e es d2 b2,
        )
        refl
