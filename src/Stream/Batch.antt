-- ===== src/Stream/Batch.antt =====
-- py_native_io/base.py: batches of `AsyncIOBase` streams without a native batch method.
use asynchstream.Base.{◌≡◌, Bool, none, List, ◌++◌}
use asynchstream.Exec.{pure, ◌>>=◌}
use asynchstream.Exec.Lists.{comprehension-append}
use asynchstream.Object.{Spec, Stream}
use asynchstream.Stream.{base_aread_batch}

module _ {W : Type 0} (self : Stream W) where
  -- For a stream with no native batch method, reading a batch of two lists of specs is reading the one
  -- batch and then the other and joining the results, with the same errors and the same final state.
  pub batch-append :
      self.ext_aread_batch ≡ none
      → (xs ys : List Spec) (loop : Bool) (s : W)
      → base_aread_batch self (xs ++ ys) loop s
        ≡ (do us ← base_aread_batch self xs; vs ← base_aread_batch self ys; pure (us ++ vs)) loop s
  unfolding base_aread_batch
  batch-append h xs ys loop s = simp h (comprehension-append _ xs ys loop s)
