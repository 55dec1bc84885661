-- ===== src/Reply/Once.antt =====
-- aConnReply.cpp: `WriteAllOnce` and `WriteAllOnceIMM`; aUtil.cpp: `wait_for_io_or_timeout`. The
-- kernel's answers are lists, `none` where they end. Counts of bytes are below 2 ^ 31.
pub mod Delivery
pub mod Boundary
pub mod Ends
pub mod Whole
use Prim.Native.Nat.{min}
use acached.Prelude.{
  ℕ, suc, ◌+◌, ◌-◌, List, [], ◌∷◌, ◌++◌, Bool, true, false, Option, none, some, ◌==◌, ltb,
  if◌then◌else◌, take, drop,
}
use acached.Reply.{Iovec, stream, size, check_iov_total_written}

-- What `select` returns: a positive number, 0, -1 with `EINTR`, or -1.
pub data Select : Type 0 where
  writable elapsed select_interrupted select_error : Select

unfoldable pub wait_for_io_or_timeout : List Select → Option Select
wait_for_io_or_timeout [] = none
wait_for_io_or_timeout (writable ∷ answers) = some writable
wait_for_io_or_timeout (elapsed ∷ answers) = some elapsed
wait_for_io_or_timeout (select_interrupted ∷ answers) = wait_for_io_or_timeout answers
wait_for_io_or_timeout (select_error ∷ answers) = some select_error

abbrev pub try_count_max : ℕ
try_count_max = 5

-- The jumps to `do_select`, one list of answers for each wait: whether another write is tried.
unfoldable pub select_loop : ℕ → List (List Select) → Option Bool
unfolding wait_for_io_or_timeout
select_loop trycount [] = none
select_loop trycount (answers ∷ waits) =
    let again = select_loop (suc trycount) waits in
    elim (wait_for_io_or_timeout answers) [
      | none ↦ none
      | some writable ↦ some true
      | some elapsed ↦ if ltb (suc trycount) try_count_max then again else some true
      | some select_interrupted ↦ none
      | some select_error ↦ some false
    ]

-- What one `sendmsg` meets: room for some bytes, a closed connection, a signal, a full buffer with
-- the waits that follow, or another error.
pub data Attempt : Type 0 where
  room : ℕ → Attempt
  hung_up interrupted error : Attempt
  would_block : List (List Select) → Attempt

-- `sendmsg` takes as many bytes as there is room for, and at most all.
abbrev pub sendmsg : Iovec → ℕ → ℕ
sendmsg offered bytes = min bytes (size offered)

pub data Returned : Type 0 where
  wrote : ℕ → Returned
  zero_returned wait_failed send_failed : Returned

-- What is returned, the table, and the bytes that the kernel has taken, in order.
abbrev pub Sending : Type 0
Sending = Returned × (Iovec × List ℕ)

-- From `do_write` on, with the bytes taken before. `start` is assigned before it is subtracted, so
-- that `iovCount` stays.
unfoldable pub do_write : List Attempt → ℕ → ℕ → ℕ → Iovec → List ℕ → Option Sending
unfolding select_loop check_iov_total_written
do_write [] start count totalcount iovec taken = none
do_write (interrupted ∷ attempts) start count totalcount iovec taken =
    do_write attempts start count totalcount iovec taken
do_write (hung_up ∷ attempts) start count totalcount iovec taken =
    some (zero_returned, (iovec, taken))
do_write (error ∷ attempts) start count totalcount iovec taken = some (send_failed, (iovec, taken))
do_write (would_block waits ∷ attempts) start count totalcount iovec taken =
    let again = do_write attempts start count totalcount iovec taken in
    elim (select_loop 0 waits) [
      | none ↦ none
      | some true ↦ again
      | some false ↦ some (wait_failed, (iovec, taken))
    ]
do_write (room bytes ∷ attempts) start count totalcount iovec taken =
    let writeret = sendmsg (take count (drop start iovec)) bytes in
    let now = taken ++ take writeret (stream (take count (drop start iovec))) in
    let c = check_iov_total_written iovec start count writeret in
    let further = λ (iov_end : ℕ).
      do_write attempts iov_end (count - (iov_end - iov_end)) (totalcount + writeret) c.iovec now in
    if writeret == 0 then some (zero_returned, (iovec, taken)) else elim c.iov_end [
      | none ↦ none
      | some iov_end ↦
          if c.complete
          then some (wrote (totalcount + writeret), (c.iovec, now))
          else further iov_end
    ]

unfoldable pub write_all_once : List Attempt → ℕ → ℕ → Iovec → Option Sending
unfolding do_write
write_all_once attempts start count iovec = do_write attempts start count 0 iovec []

-- One write, again after a signal.
unfoldable pub send_once : List Attempt → ℕ → ℕ → Iovec → Option Returned
send_once [] start count iovec = none
send_once (interrupted ∷ attempts) start count iovec = send_once attempts start count iovec
send_once (hung_up ∷ attempts) start count iovec = some zero_returned
send_once (error ∷ attempts) start count iovec = some send_failed
send_once (would_block waits ∷ attempts) start count iovec = some send_failed
send_once (room bytes ∷ attempts) start count iovec =
    let writeret = sendmsg (take count (drop start iovec)) bytes in
    if writeret == 0 then some zero_returned else some (wrote writeret)

-- The assertion asks for one entry.
unfoldable pub write_all_once_imm : List Attempt → ℕ → ℕ → Iovec → Option Returned
unfolding send_once
write_all_once_imm attempts start count iovec =
    if count == 1 then send_once attempts start count iovec else none
