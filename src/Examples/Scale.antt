-- ===== src/Examples/Scale.antt =====
-- examples/07_scale_5000_files_benchmark.py: what the concurrent half leaves in the files and reads.
use asynchstream.Exec.{Exec}
use asynchstream.Examples.{Gather}
