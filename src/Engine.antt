-- ===== src/Engine.antt =====
-- src/engines/mod.rs and src/engines/windows.rs: whether the platform's rings are used, and the requests
-- of Windows. What the platform answers is a parameter.
pub mod Choice
use asynchstream.Base.{
  ℕ, Bool, true, false, not, ◌&&◌, Option, List, ℤ, is_zero, length, if◌then◌else◌,
}
use asynchstream.Exec.{Exec, pure, ◌>>=◌, ◌>>◌}
use asynchstream.Utf8.{Text}
use asynchstream.Native.{Os}
use asynchstream.Ring.Support.{Probe, is_linux_uring_secure_and_supported}

-- `target_os`, as far as the crate tests it.
pub data TargetOs : Type 0 where
  linux windows macos ios freebsd netbsd openbsd dragonfly : TargetOs
  solaris illumos aix haiku android other_os : TargetOs

-- What Windows answers: whether kernel32.dll and its two functions are there, and what a call of
-- `CreateIoRing` gives.
pub record Kernel32 : Type 0 where
  pub loaded : Bool
  pub has_create : Bool
  pub has_close : Bool
  pub hr : ℤ
  pub handle_is_null : Bool

unfoldable pub is_windows_ioring_supported : Kernel32 → Bool
is_windows_ioring_supported k =
    if not k.loaded
    then false
    else if k.has_create && k.has_close
    then is_zero k.hr && not k.handle_is_null
    else false

unfoldable pub is_macos_kqueue_supported : Bool
is_macos_kqueue_supported = true

-- What the process finds: whether PY_NATIVE_IO_FORCE_LEGACY is set, and what its platform answers.
pub record Machine : Type 0 where
  pub force_legacy : Bool
  pub release : Option Text
  pub probe : Probe
  pub kernel32 : Kernel32

-- The block that the platform compiles.
platform_supported : (ℕ → Bool) → TargetOs → Machine → Bool
unfolding is_linux_uring_secure_and_supported is_windows_ioring_supported
platform_supported is_space linux m = is_linux_uring_secure_and_supported is_space m.release m.probe
platform_supported is_space windows m = is_windows_ioring_supported m.kernel32
platform_supported is_space other_os m = false
platform_supported is_space _ m = true

unfoldable pub is_kernel_ring_supported : (ℕ → Bool) → TargetOs → Machine → Bool
unfolding platform_supported
is_kernel_ring_supported is_space target m =
    if m.force_legacy then false else platform_supported is_space target m

-- Through `ReadFile` and `WriteFile`, at the current position.
module _ {W : Type 0} (os : Os W) where
  abbrev pub submit_ioring_read : ℕ → ℕ → Exec W (List ℕ)
  submit_ioring_read handle size = os.read handle size

  abbrev pub submit_ioring_write : ℕ → List ℕ → Exec W ℕ
  submit_ioring_write handle bytes = do os.write_all handle bytes; pure (length bytes)

  -- The operating system's files with these requests for the rings.
  abbrev pub over_windows : Os W
  over_windows = record os {
    submit_ioring_read = submit_ioring_read;
    submit_ioring_write = submit_ioring_write;
  }
