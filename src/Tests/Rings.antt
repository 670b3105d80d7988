-- ===== src/Tests/Rings.antt =====
-- The theorems on the rings, at a kernel whose completions come in newest first.
use asynchstream.Base.{
  Bool, some, ℕ, suc, ◌≤◌, ◌≡◌, refl, true, false, ◌==◌, ltb, contains, none, List, [], ◌∷◌, ◌++◌,
  take, ℤ, pos, negsuc, is_some, if◌then◌else◌, length, arith,
}
use asynchstream.Exec.{ok}
use asynchstream.Ring.{
  Sqe, user_data, IoUring, RingState, poll_completion_for_id, ids_from, submit_uring_read_batch,
  truncated,
}
use asynchstream.Ring.Completed.{Completions, lookup, Honest}
use asynchstream.Ring.Kernel.{Kernel}
use asynchstream.Ring.Waiting.{Polls, poll_completion_for_id-Polls}
use asynchstream.Ring.InOrder.{in_order, accepted, thread}
use asynchstream.Utf8.{Text}
use asynchstream.Ring.Support.{Probe, parse_kernel_version, is_linux_uring_secure_and_supported}
use asynchstream.Ring.Batch.{reads_of, read_batch_in_order}

-- How many entries the queue holds, the requests under way, and all that were accepted.
pub record Queue : Type 0 where
  pub queued : ℕ
  pub flight : List ℕ
  pub log : List Sqe

abbrev pub answer : ℕ → ℤ
answer id = if id == 9 then negsuc 4 else pos 2

abbrev pub answers : List ℕ → Completions
answers [] = []
answers (id ∷ ids) = (id, answer id) ∷ answers ids

-- The queue has room for two.
abbrev pub newest_first : IoUring Queue
newest_first = record {
  new = λ n. ok (record { queued = 0; flight = []; log = [] });
  push = λ e k.
      if ltb k.queued 2
      then (
        true,
        record { queued = suc k.queued; flight = user_data e ∷ k.flight; log = k.log ++ (e ∷ []) },
      )
      else (false, k);
  submit = λ k. (ok k.queued, record k { queued = 0 });
  submit_and_wait = λ n k. (ok k.queued, record k { queued = 0 });
  completion = λ k. (answers k.flight, record k { flight = [] });
  buffer = λ id. id ∷ 7 ∷ 0 ∷ [];
}

pub lookup-answers :
    (i : ℕ) (l : List ℕ) → contains i l ≡ true → is_some (lookup i (answers l)) ≡ true
unfolding lookup
lookup-answers i [] h = ground arith
lookup-answers i (j ∷ l) h = let ih = lookup-answers i l in ground arith

pub answers-Honest : (l : List ℕ) → Honest answer (answers l)
unfolding Honest
answers-Honest [] = tt
answers-Honest (j ∷ l) = (refl, answers-Honest l)

pub length-answers : (l : List ℕ) → length (answers l) ≡ length l
length-answers [] = refl
length-answers (j ∷ l) = rw (length-answers l) refl

pub contains-length : (i : ℕ) (l : List ℕ) → contains i l ≡ true → 1 ≤ length l
contains-length i [] h = ground arith
contains-length i (j ∷ l) h = omega arith

pub push-kept :
    (e : Sqe) (k : Queue) (i : ℕ)
    → contains i k.flight ≡ true
    → contains i (newest_first.push e k).1.flight ≡ true
push-kept e k i h = ground arith

pub push-new :
    (e : Sqe) (k : Queue)
    → (newest_first.push e k).0 ≡ true
    → let k1 = (newest_first.push e k).1 in
      (contains (user_data e) k1.flight ≡ true) × (length k1.flight ≡ suc (length k.flight))
push-new e k h = ground arith

pub push-full :
    (e : Sqe) (k : Queue)
    → (newest_first.push e k).0 ≡ false
    → let k1 = (newest_first.push e k).1 in
      (length k1.flight ≡ length k.flight)
      × (true ≡ true)
      × ((newest_first.push e (newest_first.submit_and_wait 1 k1).1).0 ≡ true)
push-full e k h = ground arith

pub push-logged :
    (e : Sqe) (k : Queue)
    → (newest_first.push e k).0 ≡ true
    → (newest_first.push e k).1.log ≡ k.log ++ (e ∷ [])
push-logged e k h = ground (arith, h)

pub push-unlogged :
    (e : Sqe) (k : Queue)
    → (newest_first.push e k).0 ≡ false
    → (newest_first.push e k).1.log ≡ k.log
push-unlogged e k h = ground (arith, h)

abbrev pub newest_first_kernel : Kernel newest_first answer
newest_first_kernel = record {
  pending = λ k i. contains i k.flight;
  count = λ k. length k.flight;
  capacity = 8;
  pushed = λ k. k.log;
  push-pushed = λ e k h. push-logged e k h;
  refused-pushed = λ e k h. push-unlogged e k h;
  submit-pushed = λ k. refl;
  wait-pushed = λ n k. refl;
  completion-pushed = λ k. refl;
  push-pending = λ e k i h. push-kept e k i h;
  push-taken = λ e k h. push-new e k h;
  push-refused = λ e k h r. push-full e k h;
  submit-pending = λ k i h. h;
  submit-count = λ k. refl;
  wait-pending = λ n k i h. h;
  wait-count = λ n k. refl;
  wait-returns = λ n k h r. (refl, rw (length-answers k.flight) h);
  wait-reaped = λ k h. (refl, absurd (omega (arith, h)));
  pending-count = λ k i h. contains-length i k.flight h;
  completion-pending = λ k i h. rw (lookup-answers i k.flight h) refl;
  completion-Honest = λ k. answers-Honest k.flight;
  completion-count = λ k. let e = length-answers k.flight in omega arith;
}

abbrev pub idle_ring : RingState Queue
idle_ring = record { ring = record { queued = 1; flight = 3 ∷ []; log = [] }; completed = [] }

abbrev three_reads : List (ℕ × ℕ)
three_reads = (0, 3) ∷ (3, 3) ∷ (6, 3) ∷ []

read_batch_in_order_example :
    let out = submit_uring_read_batch newest_first none 9 1 three_reads true (thread 4 idle_ring) in
    (out.0 ≡ in_order answer (λ id n. take n (newest_first.buffer id)) (ids_from 4 three_reads))
    × (accepted newest_first answer newest_first_kernel out.1
        ≡ Sqe.read 1 0 3 4 ∷ Sqe.read 1 3 3 5 ∷ Sqe.read 1 6 3 6 ∷ [])
unfolding Honest lookup reads_of
read_batch_in_order_example =
    read_batch_in_order newest_first answer newest_first_kernel none 9 4 true idle_ring 1
      three_reads tt (omega arith) (omega arith) (omega arith)

reads_come_in_order :
    in_order answer (truncated newest_first) (ids_from 4 three_reads)
    ≡ ok ((4 ∷ 7 ∷ []) ∷ (5 ∷ 7 ∷ []) ∷ (6 ∷ 7 ∷ []) ∷ [])
unfolding in_order ids_from
reads_come_in_order = refl

poll_completion_for_id-Polls_example :
    Polls newest_first answer newest_first_kernel 3 idle_ring
      (poll_completion_for_id newest_first 3 3 true idle_ring)
unfolding Honest lookup
poll_completion_for_id-Polls_example =
    poll_completion_for_id-Polls newest_first answer newest_first_kernel true 3 3 idle_ring tt refl
      (omega arith)

abbrev pub is_newline : ℕ → Bool
is_newline c = c == 10

abbrev pub all_supported : Probe
all_supported = record {
  ring_made = true;
  probe_registered = true;
  supports_read = true;
  supports_write = true;
}

-- "5.10.0-8\n"
abbrev pub debian_release : Text
debian_release = 53 ∷ 46 ∷ 49 ∷ 48 ∷ 46 ∷ 48 ∷ 45 ∷ 56 ∷ 10 ∷ []

debian_version : parse_kernel_version is_newline debian_release ≡ some (5, 10)
unfolding parse_kernel_version
debian_version = refl

-- "4.19\n"
old_release_unsupported :
    is_linux_uring_secure_and_supported is_newline
      (some (52 ∷ 46 ∷ 49 ∷ 57 ∷ 10 ∷ []))
      all_supported
    ≡ false
unfolding is_linux_uring_secure_and_supported
old_release_unsupported = refl

unreadable_release_supported :
    is_linux_uring_secure_and_supported is_newline none all_supported ≡ true
unfolding is_linux_uring_secure_and_supported
unreadable_release_supported = refl
