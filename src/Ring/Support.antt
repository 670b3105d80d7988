-- ===== src/Ring/Support.antt =====
-- src/engines/linux.rs: whether the kernel's rings are to be used, by its version and a probe.
pub mod Version
use asynchstream.Base.{
  ℕ, ◌+◌, ◌-◌, ◌*◌, ◌^◌, Bool, false, not, ◌&&◌, ◌||◌, ◌==◌, ltb, leb, Option, none, some, [], ◌∷◌,
  if◌then◌else◌,
}
use asynchstream.Utf8.{Text}

abbrev pub is_ascii_digit : ℕ → Bool
is_ascii_digit c = leb 48 c && leb c 57

-- `release.trim()`; which characters are white space is the standard library's to say.
trim_start : (ℕ → Bool) → Text → Text
trim_start is_space [] = []
trim_start is_space (c ∷ cs) =
    let rest = trim_start is_space cs in if is_space c then rest else c ∷ cs

-- A character goes before what is left of the text behind it, unless it is a space and nothing is left.
abbrev before : (ℕ → Bool) → ℕ → Text → Text
before is_space c [] = if is_space c then [] else c ∷ []
before is_space c (d ∷ ds) = c ∷ d ∷ ds

trim_end : (ℕ → Bool) → Text → Text
trim_end is_space [] = []
trim_end is_space (c ∷ cs) = before is_space c (trim_end is_space cs)

-- `split('.')`: the part before the first dot, and what follows the dot.
first_part : Text → Text × Option Text
first_part [] = ([], none)
first_part (c ∷ cs) =
    let (part, rest) = first_part cs in if c == 46 then ([], some cs) else (c ∷ part, rest)

take_digits : Text → Text
take_digits [] = []
take_digits (c ∷ cs) = let rest = take_digits cs in if is_ascii_digit c then c ∷ rest else []

-- `parse::<u32>()`: digits, with a plus before them or not, and no overflow on the way.
value_from : ℕ → Text → Option ℕ
value_from acc [] = some acc
value_from acc (c ∷ cs) =
    if is_ascii_digit c && ltb (10 * acc + (c - 48)) (2 ^ 32)
    then value_from (10 * acc + (c - 48)) cs
    else none

value_of : Text → Option ℕ
unfolding value_from
value_of [] = none
value_of (c ∷ cs) = value_from 0 (c ∷ cs)

parse_u32 : Text → Option ℕ
unfolding value_of
parse_u32 [] = none
parse_u32 (c ∷ cs) = if c == 43 then value_of cs else value_of (c ∷ cs)

version : Option ℕ → Option ℕ → Option (ℕ × ℕ)
version (some major) (some minor) = some (major, minor)
version (some major) none = none
version none minor = none

minor_of : Option Text → Option ℕ
unfolding first_part take_digits parse_u32
minor_of none = none
minor_of (some rest) = parse_u32 (take_digits (first_part rest).0)

unfoldable pub parse_kernel_version : (ℕ → Bool) → Text → Option (ℕ × ℕ)
unfolding trim_start trim_end first_part parse_u32 minor_of version
parse_kernel_version is_space release =
    let (major, rest) = first_part (trim_end is_space (trim_start is_space release)) in
    version (parse_u32 major) (minor_of rest)

-- Older than 5.10.
is_too_old : Option (ℕ × ℕ) → Bool
is_too_old none = false
is_too_old (some (major, minor)) = ltb major 5 || (major == 5 && ltb minor 10)

-- What a ring of one entry and its probe answer, each in its turn.
pub record Probe : Type 0 where
  pub ring_made : Bool
  pub probe_registered : Bool
  pub supports_read : Bool
  pub supports_write : Bool

-- `release` is the text of /proc/sys/kernel/osrelease, where it can be read.
release_too_old : (ℕ → Bool) → Option Text → Bool
unfolding is_too_old parse_kernel_version
release_too_old is_space none = false
release_too_old is_space (some release) = is_too_old (parse_kernel_version is_space release)

unfoldable pub is_linux_uring_secure_and_supported : (ℕ → Bool) → Option Text → Probe → Bool
unfolding release_too_old
is_linux_uring_secure_and_supported is_space release probe =
    not (release_too_old is_space release)
    && (probe.ring_made
        && (probe.probe_registered && (probe.supports_read && probe.supports_write)))
