-- ===== src/Tests/Engines.antt =====
-- The theorems on the choice of the engine, at small machines.
use asynchstream.Base.{◌≡◌, refl, true, false, some, [], ◌∷◌, pos, arith}
use asynchstream.Object.{bytes}
use asynchstream.File.{linux, win, linux_uring, default_file_io, use_native}
use asynchstream.Native.{native_read, native_write, native_aread, native_awrite}
use asynchstream.Native.OnWindows.{windows_in_place}
use asynchstream.Engine.{
  TargetOs, Machine, Kernel32, is_kernel_ring_supported, is_windows_ioring_supported, over_windows,
}
use asynchstream.Engine.Choice.{linux_engine_choice}
use asynchstream.Tests.Rings.{is_newline, debian_release, all_supported}
use asynchstream.Tests.Native.{os, read_only_file, opened}

abbrev no_ring : Kernel32
no_ring = record {
  loaded = true;
  has_create = true;
  has_close = true;
  hr = pos 1;
  handle_is_null = true;
}

abbrev machine : Machine
machine = record {
  force_legacy = false;
  release = some debian_release;
  probe = all_supported;
  kernel32 = no_ring;
}

-- "5.10" and what follows it.
linux_engine_choice_example :
    default_file_io
      (use_native (some (is_kernel_ring_supported is_newline TargetOs.linux machine)))
      linux
    ≡ linux_uring
linux_engine_choice_example =
    linux_engine_choice is_newline (λ c h. ground (arith, h)) refl machine 53 49 [] (48 ∷ [])
      (46 ∷ 48 ∷ 45 ∷ 56 ∷ 10 ∷ []) refl refl refl refl (omega arith) (omega arith)

refused_ring : is_windows_ioring_supported no_ring ≡ false
unfolding is_windows_ioring_supported
refused_ring = refl

windows_in_place_example :
    (native_aread (over_windows os) win read_only_file (some (pos 2)) true opened
      ≡ native_read os win read_only_file (some (pos 2)) true opened)
    × (native_awrite (over_windows os) win read_only_file (bytes (1 ∷ [])) true opened
        ≡ native_write os win read_only_file (bytes (1 ∷ [])) true opened)
windows_in_place_example =
    windows_in_place os read_only_file 3 true opened 2 (7 ∷ 8 ∷ []) (bytes (1 ∷ [])) (1 ∷ []) _ _
      refl refl refl refl
