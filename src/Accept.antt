-- ===== src/Accept.antt =====
-- acached.cpp: the accept loop of `main` and `sendall`. The pipes of the communication threads are
-- lists of messages; a write to one of them succeeds.
pub mod Dealt
pub mod Sendall
use Prim.Native.Nat.{min}
use acached.Prelude.{
  ℕ, suc, ◌+◌, ◌-◌, ◌^◌, List, [], ◌∷◌, ◌++◌, Bool, true, false, Option, none, some, ◌==◌, ltb,
  if◌then◌else◌, length,
}
use acached.Comm.{PipeMsg, init_fd}

abbrev pub acached_thread_comm_max : ℕ
acached_thread_comm_max = 2

pub record Server : Type 0 where
  pub pipes : ℕ → List PipeMsg
  pub curr_comm_index : ℕ
  -- how often the listening socket was closed
  pub closed : ℕ

-- The number -1 in the bits of an `int`.
abbrev pub no_fd : ℕ
no_fd = 2 ^ 32 - 1

abbrev pub next_index : ℕ → ℕ
next_index i = if i == acached_thread_comm_max - 1 then 0 else i + 1

-- The message to the thread whose turn it is.
unfoldable pub hand_over : ℕ → Server → Server
hand_over fd s = record s {
  pipes = λ i. if i == s.curr_comm_index then s.pipes i ++ init_fd fd ∷ [] else s.pipes i;
  curr_comm_index = next_index s.curr_comm_index;
}

-- One round of the loop: what `accept` returned, `none` for -1, with which the round goes on.
unfoldable pub accept_one : Option ℕ → Server → Server
unfolding hand_over
accept_one none s = hand_over no_fd (record s { closed = s.closed + 1 })
accept_one (some new_fd) s = hand_over new_fd s

unfoldable pub accept_all : List (Option ℕ) → Server → Server
unfolding accept_one
accept_all [] s = s
accept_all (a ∷ accepted) s = accept_all accepted (accept_one a s)

-- The while loop of `sendall`, for each `send` the room in the kernel, `none` for -1: whether the
-- last call failed, and the total. `none` where the calls end.
unfoldable pub send_all_loop : List (Option ℕ) → ℕ → ℕ → ℕ → Option (Bool × ℕ)
send_all_loop [] total bytesleft len = none
send_all_loop (none ∷ rooms) total bytesleft len = some (true, total)
send_all_loop (some room ∷ rooms) total bytesleft len =
    let n = min room bytesleft in
    let again = send_all_loop rooms (total + n) (bytesleft - n) len in
    if ltb (total + n) len then again else some (false, total + n)

-- Whether 0 is returned, and `*len`. Without bytes the result is that of a variable that is not set.
unfoldable pub sendall : List (Option ℕ) → List ℕ → Option (Bool × ℕ)
unfolding send_all_loop
sendall rooms buf =
    let sent : Option (Bool × ℕ) = elim (send_all_loop rooms 0 (length buf) (length buf)) [
      | none ↦ none
      | some (failed, total) ↦ some (if failed then false else true, total)
    ] in
    if length buf == 0 then none else sent
