-- ===== src/Tests/Splices.antt =====
-- The theorem on a splice that moves everything, at a pipe with two bytes.
use asynchstream.Base.{true, ℕ, ◌≡◌, ◌≢◌, refl, none, some, List, [], ◌∷◌, ◌++◌, pos, length, arith}
use asynchstream.Exec.{Exec, Result, ok}
use asynchstream.Object.{Chunk, bytes, str, Sink, obj}
use asynchstream.Stream.{base_asplice}
use asynchstream.Stream.SpliceAll.{IsSteady, IsGreedy, Spliced, base_asplice-Spliced, take_all}
use asynchstream.Tests.Streams.{
  Pipe, slow_read, slow_read-IsReader, start, src, dst, nowhere, reading, give_front,
}

take_in : Chunk → Pipe → Result ℕ × Pipe
take_in (bytes l) p = (ok (length l), record p { written = p.written ++ l })
take_in (str t) p = (ok 0, p)

abbrev whole_write : Chunk → Exec Pipe ℕ
whole_write c loop p = take_in c p

slow_read-IsSteady : IsSteady src dst slow_read
slow_read-IsSteady = record {
  reader = slow_read-IsReader;
  gives = λ n loop w. given w.pending w refl;
}
  where
    given :
        (l : List ℕ) (w : Pipe)
        → w.pending ≡ l
        → (t : List ℕ) × (w' : Pipe) × (give_front l w ≡ (ok (bytes t), w'))
          × (w.pending ≢ [] → t ≢ [])
    given [] w e = ([], _, refl, λ ne. absurd (ne e))
    given (x ∷ l) w e = (x ∷ [], _, refl, λ ne. cc)

whole_write-IsGreedy : IsGreedy src dst whole_write
unfolding take_in
whole_write-IsGreedy = record {
  writer = record {
    writes = λ l loop w w' n h. let e = take_all src dst l in ground (arith, h, e);
  };
  takes = λ l loop w. (_, refl);
}

abbrev whole_sink : Sink Pipe
whole_sink = record { fileno = none; awrite = some whole_write; write = none }

base_asplice-Spliced_example :
    Spliced src dst (pos 4) start (base_asplice nowhere reading (obj whole_sink) (pos 4) true start)
base_asplice-Spliced_example =
    base_asplice-Spliced src dst nowhere reading whole_sink slow_read whole_write refl
      slow_read-IsSteady refl refl whole_write-IsGreedy (λ f e. cc) (pos 4) true start
