-- ===== src/Engine/Choice.antt =====
-- src/engines/mod.rs with py_native_io/file.py: which class `DefaultFileIO` is.
use asynchstream.Base.{
  ℕ, ◌^◌, ◌<◌, ◌≡◌, refl, Bool, true, false, not, ◌&&◌, ◌||◌, ◌==◌, ltb, some, ◌∷◌, ◌++◌,
  if◌then◌else◌, arith,
}
use asynchstream.Utf8.{Text}
use asynchstream.File.{linux, linux_uring, fallback_file_io, default_file_io, use_native}
use asynchstream.Ring.Support.{is_ascii_digit, Probe, is_linux_uring_secure_and_supported}
use asynchstream.Ring.Support.Version.{
  all_digits, starts_with_digit, spells, parse_kernel_version-spells,
}
use asynchstream.Engine.{TargetOs, Machine, is_kernel_ring_supported}

abbrev pub answers_all : Probe → Bool
answers_all p = p.ring_made && (p.probe_registered && (p.supports_read && p.supports_write))

newer :
    (forced ok : Bool) (major minor : ℕ)
    → (if forced then false else (not (ltb major 5 || (major == 5 && ltb minor 10)) && ok))
      ≡ (not forced && ((ltb 5 major || (major == 5 && not (ltb minor 10))) && ok))
newer forced ok major minor = ground arith

on_linux : (b : Bool) → default_file_io b linux ≡ (if b then linux_uring else fallback_file_io)
unfolding default_file_io
on_linux true = refl
on_linux false = refl

chosen :
    (forced ok : Bool) (major minor : ℕ)
    → default_file_io
        (if forced then false else (not (ltb major 5 || (major == 5 && ltb minor 10)) && ok))
        linux
      ≡ (if not forced && ((ltb 5 major || (major == 5 && not (ltb minor 10))) && ok)
          then linux_uring
          else fallback_file_io)
chosen forced ok major minor = rw (newer forced ok major minor, on_linux) refl

module _ (is_space : ℕ → Bool)
    (digits_kept : (c : ℕ) → is_ascii_digit c ≡ true → is_space c ≡ false)
    (dot_kept : is_space 46 ≡ false) where
  -- On Linux, where the digits and the dot are no white space, and the release of the kernel begins with two
  -- numbers below 2^32 that a dot parts, and no further digit: `DefaultFileIO` is the class over io_uring if
  -- PY_NATIVE_IO_FORCE_LEGACY is not set, the version is 5.10 or later, and the probe answers every question
  -- with yes, and `FallbackFileIO` otherwise.
  pub linux_engine_choice :
      (m : Machine) (c e : ℕ) (cs es rest : Text)
      → m.release ≡ some ((c ∷ cs) ++ (46 ∷ ((e ∷ es) ++ rest)))
      → all_digits (c ∷ cs) ≡ true
      → all_digits (e ∷ es) ≡ true
      → starts_with_digit rest ≡ false
      → spells 0 (c ∷ cs) < 2 ^ 32
      → spells 0 (e ∷ es) < 2 ^ 32
      → let major = spells 0 (c ∷ cs) in
        let minor = spells 0 (e ∷ es) in
        default_file_io
          (use_native (some (is_kernel_ring_supported is_space TargetOs.linux m)))
          linux
        ≡ (if not m.force_legacy
              && ((ltb 5 major || (major == 5 && not (ltb minor 10))) && answers_all m.probe)
            then linux_uring
            else fallback_file_io)
  unfolding default_file_io use_native is_kernel_ring_supported is_linux_uring_secure_and_supported
  linux_engine_choice m c e cs es rest r d1 d2 n b1 b2 =
      let v =
        parse_kernel_version-spells is_space digits_kept dot_kept c e cs es rest d1 d2 n b1 b2 in
      rw (r, v)
        (chosen m.force_legacy (answers_all m.probe) (spells 0 (c ∷ cs)) (spells 0 (e ∷ es)))
