-- ===== src/Socket/Makefile.antt =====
-- py_native_io/patch.py: `patched_socket_makefile` for a mode that both reads and writes.
use asynchstream.Exec.{Exec}
