-- ===== src/Comm/Notified.antt =====
-- A store thread's notification and what the communication thread makes of it.
use acached.Prelude.{
  ℕ, ◌≡◌, ◌≢◌, refl, ap, ◌∙◌, List, [], ◌∷◌, ◌++◌, true, false, some, ◌==◌, arith, Option-cases,
  inl, inr,
}
use acached.Queue.{Ptr, null, find_ptr, a_q_find_ptr}
use acached.Queue.Shared.{a_sq_find_ptr, adapt_lock, adapt_un_lock}
use acached.Queue.FreeBusy.Shared.{a_fbsq_find_ptr_busy}
use acached.Pool.Conserve.{idle}
use acached.Request.{World, Run, ◌>>=◌, pure, bind_lem, on_conn_pool, post2kvdata_tsq, dispatch}
use acached.Request.Order.{free_queue, Taken, post2kvdata_tsq_notified}
use acached.Comm.{checkfd, check_pending_cmd_q, notify_connection, process_pipe_msg, process_new_fd}
use acached.Comm.Failed.{on_conn_pool_lem}

-- No connection of the list has the socket.
abbrev pub OtherSockets : ℕ → World → List Ptr → Type 0
OtherSockets fd w [] = Unit {0}
OtherSockets fd w (p ∷ ps) = ((w.connections p).c_sock_fd ≢ fd) × OtherSockets fd w ps

find_first :
    (fd : ℕ) (w : World) (before after : List Ptr) (p : Ptr)
    → OtherSockets fd w before
    → (w.connections p).c_sock_fd ≡ fd
    → find_ptr (checkfd w) fd (before ++ p ∷ after) ≡ p
unfolding find_ptr checkfd
find_first fd w [] after p o e =
    let this : ((w.connections p).c_sock_fd == fd) ≡ true = ground (arith, e) in rw this refl
find_first fd w (q ∷ before) after p (ne, o) e =
    let other : ((w.connections q).c_sock_fd == fd) ≡ false = ground (arith, ne) in
    rw other (find_first fd w before after p o e)

find_busy :
    (fd kind type : ℕ) (w : World) (free before after : List Ptr) (p : Ptr)
    → OtherSockets fd w before
    → (w.connections p).c_sock_fd ≡ fd
    → a_fbsq_find_ptr_busy (checkfd w) fd (idle kind type free (before ++ p ∷ after))
      ≡ some (p, idle kind type free (before ++ p ∷ after))
unfolding a_fbsq_find_ptr_busy a_sq_find_ptr adapt_lock adapt_un_lock a_q_find_ptr
find_busy fd kind type w free before after p o e =
    ap (λ q. some (q, idle kind type free (before ++ p ∷ after)))
      (find_first fd w before after p o e)

then_nothing : (m : Run (Unit {0})) (w : World) → (m >>= λ _. pure tt) w ≡ m w
then_nothing m w = elim (Option-cases (m w)) [
  | inl e ↦ rw (e, ◌>>=◌) refl
  | inr (a, e) ↦ rw (e, ◌>>=◌) refl
]

module _ (hash : List ℕ → ℕ) (fresh : ℕ → List Ptr) where
  -- When a connection is free with a message pending, neither of them `NULL`, it is in use and no
  -- other in use has its socket before it, and the mutexes are free: the message that `CheckPendingCmdQ` puts into the pipe
  -- makes the communication thread take the connection's first pending message and dispatch it,
  -- with the connection busy and the others pending in order.
  pub process_pipe_msg-Taken :
      (this first : Ptr) (kind type qtype : ℕ) (free before after rest : List Ptr) (w : World)
      → this ≢ null
      → first ≢ null
      → w.conn_pool ≡ idle kind type free (before ++ this ∷ after)
      → OtherSockets (w.connections this).c_sock_fd w before
      → (w.connections this).busy ≡ 0
      → (w.connections this).pending_cmd_q ≡ free_queue qtype (first ∷ rest)
      → (w' : World) × (process_new_fd hash fresh (check_pending_cmd_q (w.connections this) []) w
          ≡ dispatch hash fresh this first w')
        × Taken hash fresh this qtype rest w w'
  unfolding process_new_fd process_pipe_msg notify_connection check_pending_cmd_q
  process_pipe_msg-Taken this first kind type qtype free before after rest w real real_first pool
        others idle_now pending =
      let fd = (w.connections this).c_sock_fd in
      let found : World = record w { conn_pool = idle kind type free (before ++ this ∷ after) } in
      let some_connection : (this == null) ≡ false = ground (arith, real) in
      let (w', run, t) =
        post2kvdata_tsq_notified hash fresh this first qtype rest found real_first idle_now
          pending in
      let looked : on_conn_pool (a_fbsq_find_ptr_busy (checkfd w) fd) w ≡ some (this, found) =
        on_conn_pool_lem (a_fbsq_find_ptr_busy (checkfd w) fd) w this _ (
          ap (a_fbsq_find_ptr_busy (checkfd w) fd) pool
          ∙ find_busy fd kind type w free before after this others refl) in
      let notified : notify_connection hash fresh fd w
          ≡ post2kvdata_tsq hash fresh this null found =
        bind_lem (λ w. on_conn_pool (a_fbsq_find_ptr_busy (checkfd w) fd) w) _ w found this looked
        ∙ rw some_connection refl in
      (
        w',
        then_nothing (notify_connection hash fresh fd) w ∙ notified ∙ run,
        record {
          busy = t.busy;
          pending = t.pending;
          conc_pending = t.conc_pending;
          receiver = t.receiver;
          others = t.others;
          messages = t.messages;
          posted = t.posted;
          msg_pool = t.msg_pool;
        },
      )
