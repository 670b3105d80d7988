-- ===== src/Ring.antt =====
-- src/engines/linux.rs: requests on the thread's io_uring, and how their results are waited for. The
-- crate io_uring and the kernel behind it are a parameter; a poisoned lock is left out.
pub mod Completed
pub mod Kernel
pub mod Waiting
mod Pushing
pub mod InOrder
pub mod Batch
pub mod Single
pub mod Support
use asynchstream.Base.{
  ℕ, zero, suc, ◌+◌, ◌-◌, ◌%◌, ◌^◌, Bool, true, false, ◌&&◌, ◌||◌, ◌==◌, ltb, Option, none, some,
  List, [], ◌∷◌, ℤ, pos, negsuc, length, take, if◌then◌else◌,
}
use asynchstream.Exec.{
  Exec, Result, ok, err, too_deep, os_error, raise, pure, give_up, continue, ◌>>=◌, ◌>>◌,
}
use asynchstream.Ring.Completed.{Completions, lookup, delete, insert_all}

-- A submission queue entry. `types::Fd(-1)` and an offset of -1 are the current position.
pub data Sqe : Type 0 where
  read : (fd offset size user_data : ℕ) → Sqe
  write : (fd : ℕ) → (buf : List ℕ) → (offset user_data : ℕ) → Sqe
  splice : (fd_in fd_out size user_data : ℕ) → Sqe

abbrev pub user_data : Sqe → ℕ
user_data (read fd offset size id) = id
user_data (write fd buf offset id) = id
user_data (splice fd_in fd_out size id) = id

-- The crate: `push` says whether the queue had room, `completion` empties the completion queue, and
-- `buffer` is what the memory that a read was given holds once the read is complete.
pub record IoUring (K : Type 0) : Type 0 where
  pub new : ℕ → Result K
  pub push : Sqe → K → Bool × K
  pub submit : K → Result ℕ × K
  pub submit_and_wait : ℕ → K → Result ℕ × K
  pub completion : K → Completions × K
  pub buffer : ℕ → List ℕ

pub record RingState (K : Type 0) : Type 0 where
  pub ring : K
  pub completed : Completions

-- `THREAD_RING` and `NEXT_USER_DATA`, as this thread sees it.
pub record Thread (K : Type 0) : Type 0 where
  pub thread_ring : Option (RingState K)
  pub next_user_data : ℕ

-- `parsed.is_power_of_two()`, by the exponents below a bound.
is_power_of_two : ℕ → ℕ → Bool
is_power_of_two zero n = false
is_power_of_two (suc bits) n = (n == 2 ^ bits) || is_power_of_two bits n

-- By what the environment variable parses to.
unfoldable pub get_configured_ring_size : Option ℕ → ℕ
unfolding is_power_of_two
get_configured_ring_size none = 1024
get_configured_ring_size (some parsed) =
    if ltb 0 parsed && is_power_of_two 32 parsed then parsed else 1024

module _ {K : Type 0} (io : IoUring K) where
  -- `if let Some(res) = completed.remove(&my_id) { return Ok(res) }`
  abbrev pub remove_or : ℕ → Option ℤ → Exec (RingState K) ℤ → Exec (RingState K) ℤ
  remove_or id (some res) otherwise loop s =
      (ok res, record s { completed = delete id s.completed })
  remove_or id none otherwise loop s = otherwise loop s

  abbrev pub take_result : ℕ → Exec (RingState K) ℤ → Exec (RingState K) ℤ
  take_result id otherwise loop s = remove_or id (lookup id s.completed) otherwise loop s

  -- `for cqe in ring.completion() { completed.insert(…) }`
  abbrev pub drain : Exec (RingState K) Unit
  drain loop s =
      let (cqes, k) = io.completion s.ring in
      (ok tt, record { ring = k; completed = insert_all cqes s.completed })

  -- `let _ = ring.submit()`
  abbrev pub submit_some : Exec (RingState K) Unit
  submit_some loop s = (ok tt, record s { ring = (io.submit s.ring).1 })

  abbrev pub wait_for : ℕ → Exec (RingState K) ℕ
  wait_for n loop s = let (r, k) = io.submit_and_wait n s.ring in (r, record s { ring = k })

  -- The loop, on fuel.
  unfoldable pub poll_completion_for_id : ℕ → ℕ → Exec (RingState K) ℤ
  poll_completion_for_id zero id = give_up
  poll_completion_for_id (suc fuel) id =
      let again = poll_completion_for_id fuel id in
      take_result id
        (do drain; take_result id (do submit_some; drain; take_result id (do wait_for 1; again)))

  -- "SQ queue full"
  abbrev push_again : Sqe → Exec (RingState K) Unit
  push_again e loop s =
      let (room, k) = io.push e s.ring in
      if room then (ok tt, record s { ring = k }) else (err os_error, record s { ring = k })

  unfoldable pub push_entry : Sqe → Exec (RingState K) Unit
  push_entry e loop s =
      let (room, k) = io.push e s.ring in
      if room
      then (ok tt, record s { ring = k })
      else (do wait_for 1; push_again e) loop (record s { ring = k })

  unfoldable pub push_all : List Sqe → Exec (RingState K) Unit
  push_all [] = pure tt
  push_all (e ∷ es) = let rest = push_all es in (do push_entry e; rest)

module _ {K A : Type 0} (io : IoUring K) where
  abbrev on_state : Exec (RingState K) A → RingState K → Exec (Thread K) A
  on_state body s loop t = let (r, s') = body loop s in (r, record t { thread_ring = some s' })

  abbrev made : Result K → Exec (RingState K) A → Exec (Thread K) A
  made (ok k) body = on_state body (record { ring = k; completed = [] })
  made (err e) body = raise e
  made too_deep body = give_up

  -- `ring_size` is what the environment variable parses to.
  abbrev with_ring : Option ℕ → Option (RingState K) → Exec (RingState K) A → Exec (Thread K) A
  with_ring ring_size none body = made (io.new (get_configured_ring_size ring_size)) body
  with_ring ring_size (some s) body = on_state body s

  abbrev pub with_thread_ring_state : Option ℕ → Exec (RingState K) A → Exec (Thread K) A
  with_thread_ring_state ring_size body loop t = with_ring ring_size t.thread_ring body loop t

module _ {K : Type 0} where
  -- `NEXT_USER_DATA.fetch_add(n)`
  abbrev pub fetch_add : ℕ → Exec (Thread K) ℕ
  fetch_add n loop t =
      (ok t.next_user_data, record t { next_user_data = (t.next_user_data + n) % 2 ^ 64 })

  -- `if ret < 0 { return Err(…) }`
  abbrev pub checked : {A : Type 0} → (ℕ → A) → ℤ → Exec (Thread K) A
  checked f (pos n) = pure (f n)
  checked f (negsuc n) = raise os_error

-- The entries of a batch, and their numbers.
unfoldable pub entries_from : {X : Type 0} → (ℕ → X → Sqe) → ℕ → List X → List Sqe
entries_from make id [] = []
entries_from make id (x ∷ xs) = make id x ∷ entries_from make ((id + 1) % 2 ^ 64) xs

unfoldable pub ids_from : {X : Type 0} → ℕ → List X → List ℕ
ids_from id [] = []
ids_from id (x ∷ xs) = id ∷ ids_from ((id + 1) % 2 ^ 64) xs

-- A read of a batch is an offset and a size; `size as u32` keeps the low bits.
abbrev pub read_entry : ℕ → ℕ → ℕ × ℕ → Sqe
read_entry fd id (offset, size) = read fd offset (size % 2 ^ 32) id

-- `u64::MAX` stands for the current position.
abbrev pub write_entry : ℕ → ℕ → List ℕ → Sqe
write_entry fd id buf = write fd buf (2 ^ 64 - 1) id

-- `buf.truncate(ret as usize)`
abbrev pub truncated : {K : Type 0} → IoUring K → ℕ → ℕ → List ℕ
truncated io id n = take n (io.buffer id)

module _ {K : Type 0} (io : IoUring K) (ring_size : Option ℕ) (fuel : ℕ) where
  abbrev result_of : {A : Type 0} → (ℕ → ℕ → A) → ℕ → Exec (Thread K) A
  result_of got id = do
    ret ← with_thread_ring_state io ring_size (poll_completion_for_id io fuel id)
    checked (got id) ret

  -- `for (i, my_id) in task_ids.into_iter().enumerate()`
  unfoldable pub collect : {A : Type 0} → (ℕ → ℕ → A) → List ℕ → Exec (Thread K) (List A)
  collect got [] = pure []
  collect got (id ∷ ids) =
      let rest = collect got ids in do a ← result_of got id; others ← rest; pure (a ∷ others)

  -- The body that the two batches share: the entries, their submission, and the results.
  unfoldable pub submit_batch :
      {X A : Type 0} → (ℕ → X → Sqe) → (ℕ → ℕ → A) → List X → Exec (Thread K) (List A)
  submit_batch make got xs = do
    start ← fetch_add (length xs)
    with_thread_ring_state io ring_size
        (do push_all io (entries_from make start xs); wait_for io (length xs))
    collect got (ids_from start xs)

  unfoldable pub submit_uring_read_batch : ℕ → List (ℕ × ℕ) → Exec (Thread K) (List (List ℕ))
  submit_uring_read_batch fd [] = pure []
  submit_uring_read_batch fd (spec ∷ specs) =
      submit_batch (read_entry fd) (truncated io) (spec ∷ specs)

  unfoldable pub submit_uring_write_batch : ℕ → List (List ℕ) → Exec (Thread K) (List ℕ)
  submit_uring_write_batch fd [] = pure []
  submit_uring_write_batch fd (chunk ∷ chunks) =
      submit_batch (write_entry fd) (λ id n. n) (chunk ∷ chunks)

  -- The body that the single requests share.
  unfoldable pub submit_one : {A : Type 0} → (ℕ → Sqe) → (ℕ → ℕ → A) → Exec (Thread K) A
  submit_one make got = do
    id ← fetch_add 1
    with_thread_ring_state io ring_size (push_entry io (make id))
    result_of got id

  unfoldable pub submit_uring_read : ℕ → ℕ → ℕ → Exec (Thread K) (List ℕ)
  submit_uring_read fd offset size =
      submit_one (λ id. read_entry fd id (offset, size)) (truncated io)

  unfoldable pub submit_uring_write : ℕ → List ℕ → Exec (Thread K) ℕ
  submit_uring_write fd buf = submit_one (λ id. write_entry fd id buf) (λ id n. n)

  unfoldable pub submit_uring_splice : ℕ → ℕ → ℕ → Exec (Thread K) ℕ
  submit_uring_splice fd_in fd_out size =
      submit_one (splice fd_in fd_out (size % 2 ^ 32)) (λ id n. n)

  unfoldable pub flush_thread_ring : Exec (Thread K) ℕ
  flush_thread_ring =
      with_thread_ring_state io ring_size
        (λ loop s. let (r, k) = io.submit s.ring in (r, record s { ring = k }))
