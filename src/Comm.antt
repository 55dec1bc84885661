-- ===== src/Comm.antt =====
-- threadComm.cpp: what a communication thread does when a connection or its pipe is readable. Each
-- call of `read` has an `Input`. `none` is an abort or a call that blocks.
pub mod Endless
pub mod Failed
pub mod Opened
pub mod Notified
pub mod Pipelined
pub mod Stuck
use acached.Prelude.{
  ℕ, ◌+◌, ◌%◌, ◌^◌, ◌≡◌, List, [], ◌∷◌, ◌++◌, Bool, true, false, ◌&&◌, ◌||◌, not, Option, none,
  some, ◌==◌, if◌then◌else◌,
}
use acached.Conn.{ConnState, cmd_wait, hdr_wait, body_wait, cmd_done, aerr_type_app, aerr_type_sys}
use acached.Queue.{Ptr, null}
use acached.Queue.FreeBusy.Shared.{a_fbsq_find_ptr_busy}
use acached.Pool.{a_conn_allocate}
use acached.Parse.Command.{CmdType, gets, set, quit, version}
use acached.Reply.Queued.{decimal, crlf}
use acached.Receive.{Receiver, Input, Returns, process_data_recv, write_data}
use acached.Request.{
  Connection, World, Run, ◌>>=◌, ◌>>◌, pure, fail, with_connection, put_connection, on_conn_pool,
  reset, close_connection, post2kvdata_tsq, post_command,
}

-- EAGAIN and EWOULDBLOCK of Linux
abbrev pub eagain : ℕ
eagain = 11

-- "CLIENT_ERROR errno:%d\r\n"
unfoldable pub client_error : ℕ → List ℕ
client_error aerrnum =
    (b'C' ∷ b'L' ∷ b'I' ∷ b'E' ∷ b'N' ∷ b'T' ∷ b'_' ∷ b'E' ∷ b'R' ∷ b'R' ∷ b'O' ∷ b'R' ∷ b' ' ∷ b'e'
      ∷ b'r' ∷ b'r' ∷ b'n' ∷ b'o' ∷ b':' ∷ [])
    ++ (decimal aerrnum ++ crlf)

abbrev pub is_cmd_done : ConnState → Bool
is_cmd_done cmd_wait = false
is_cmd_done hdr_wait = false
is_cmd_done body_wait = false
is_cmd_done cmd_done = true

abbrev pub is_cmd_wait : ConnState → Bool
is_cmd_wait cmd_wait = true
is_cmd_wait hdr_wait = false
is_cmd_wait body_wait = false
is_cmd_wait cmd_done = false

abbrev pub is_quit : CmdType → Bool
is_quit gets = false
is_quit set = false
is_quit quit = true
is_quit version = false

-- How the loop of calls ends: with what the last call returned, `none` for a negative value, and its
-- input; or not as long as the given inputs last.
pub data Looped : Type 0 where
  ended : Option ℕ → Input → Looped
  running : Looped

-- What a callback did: text that it tried to send.
pub data Did : Type 0 where
  nothing still_running : Did
  sent : List ℕ → Did

-- Whether a connection has the socket.
unfoldable pub checkfd : World → Ptr → ℕ → Bool
checkfd w ptr fd = (w.connections ptr).c_sock_fd == fd

-- `ret > 0`
abbrev pub positive : Option ℕ → Bool
positive none = false
positive (some ret) = not (ret == 0)

abbrev pub put_receiver : Ptr → Receiver → Run (Unit {0})
put_receiver this r = with_connection this (λ c. put_connection this (record c { receiver = r }))

-- `ret = aC->ProcessDataRecv()`
unfoldable pub recv : Ptr → Input → Run (Option ℕ)
unfolding process_data_recv
recv this input = with_connection this (λ c. elim (process_data_recv input c.receiver) [
  | none ↦ fail
  | some (ret, r) ↦ put_receiver this r >> pure ret
])

unfoldable pub reset_connection : Ptr → Run (Unit {0})
unfolding reset put_connection
reset_connection this = with_connection this (λ c. put_connection this (reset c))

-- A `MsgPipe_t` by its `initType`: `I` with a new socket, `P` with the socket of a connection.
-- The pipe is read 42 whole messages at a time at most.
pub data PipeMsg : Type 0 where
  init_fd pending_fd : ℕ → PipeMsg
  other : PipeMsg

-- aConn.cpp: `CheckPendingCmdQ`, what the pipe of the connection's thread gets
unfoldable pub check_pending_cmd_q : Connection → List PipeMsg → List PipeMsg
check_pending_cmd_q c pipe = pipe ++ pending_fd c.c_sock_fd ∷ []

module _ (hash : List ℕ → ℕ) (fresh : ℕ → List Ptr) where
  -- A command that is complete: whether the loop is left.
  unfoldable pub completed : Ptr → Run Bool
  unfolding post_command put_connection reset_connection
  completed this = with_connection this (λ c. elim c.receiver.cmd.ctype [
    | version ↦ reset_connection this >> pure false
    | _ ↦ do
      put_receiver this (record c.receiver { state = cmd_wait })
      _ ← post_command hash fresh this
      with_connection this (λ c.
          if is_quit c.receiver.cmd.ctype then pure true else (reset_connection this >> pure false))
  ])

  -- The body of the do-while loop: the value of `ret`, and whether the loop is left by `break`.
  unfoldable pub recv_step : Ptr → Input → Run (Option ℕ × Bool)
  unfolding recv completed
  recv_step this input = do
    ret ← recv this input
    with_connection this (λ c.
        if positive ret && is_cmd_done c.receiver.state
        then (completed this >>= λ left. pure (ret, left))
        else pure (ret, false))

  unfoldable pub recv_loop : Ptr → List Input → Run Looped
  unfolding recv_step
  recv_loop this [] = pure running
  recv_loop this (input ∷ inputs) =
      let again = recv_loop this inputs in
      do
        (ret, left) ← recv_step this input
        with_connection this (λ c.
            if not left && (positive ret || not (c.receiver.data_pending_read == 0))
            then again
            else pure (ended ret input))

  -- What follows the loop.
  unfoldable pub recv_end : ℕ → Ptr → Looped → Run Did
  unfolding close_connection write_data reset_connection
  recv_end fd this running = pure still_running
  recv_end fd this (ended (some ret) input) =
      if ret == 0 then (close_connection fd this >> pure nothing) else pure nothing
  recv_end fd this (ended none input) = with_connection this (λ c.
      let r = c.receiver in
      let text = client_error r.aerrnum in
      let answered = (do
        put_receiver this (write_data input.sent r).1
        reset_connection this
        pure (sent text)) in
      if (r.aerrtype == aerr_type_sys) && not (input.errno == eagain)
      then (close_connection fd this >> pure nothing)
      else if r.aerrtype == aerr_type_app
      then answered
      else pure nothing)

  -- `commRead_cb` on an event of the connection `this`. `early` is the `read` of a connection that
  -- waits for a command while requests and replies are counted, `none` for -1: what it takes is
  -- dropped.
  unfoldable pub comm_read : ℕ → Ptr → Option (List ℕ) → List Input → Run Did
  unfolding recv_loop recv_end close_connection
  comm_read fd this early inputs =
      let process = recv_loop this inputs >>= recv_end fd this in
      let close = close_connection fd this >> pure nothing in
      with_connection this (λ c.
        if is_cmd_wait c.receiver.state && not ((c.req_count == 0) || (c.reply_count == 0))
        then elim early [ none ↦ process | some [] ↦ close | some (_ ∷ _) ↦ process ]
        else process)

  -- A connection of the pool for a new socket. `Init` of `NULL` aborts.
  unfoldable pub open_connection : ℕ → Run (Unit {0})
  unfolding a_conn_allocate put_connection reset
  open_connection newfd = do
    this ← on_conn_pool a_conn_allocate
    let put =
        with_connection this (λ c. put_connection this (reset (record c { c_sock_fd = newfd })))
    if this == null then fail else put

  unfoldable pub notify_connection : ℕ → Run (Unit {0})
  unfolding post2kvdata_tsq a_fbsq_find_ptr_busy checkfd
  notify_connection fd = do
    this ← λ w. on_conn_pool (a_fbsq_find_ptr_busy (checkfd w) fd) w
    if this == null then pure tt else post2kvdata_tsq hash fresh this null

  unfoldable pub process_pipe_msg : PipeMsg → Run (Unit {0})
  unfolding open_connection notify_connection
  process_pipe_msg (init_fd newfd) = open_connection newfd
  process_pipe_msg (pending_fd fd) = notify_connection fd
  process_pipe_msg other = pure tt

  unfoldable pub process_new_fd : List PipeMsg → Run (Unit {0})
  unfolding process_pipe_msg
  process_new_fd [] = pure tt
  process_new_fd (m ∷ ms) = let rest = process_new_fd ms in process_pipe_msg m >> rest

  -- `commReadMain_cb`; `closeConnection` with no connection closes the pipe.
  unfoldable pub comm_read_main : ℕ → Option (List PipeMsg) → Run (Unit {0})
  unfolding process_new_fd
  comm_read_main fd none w = some (tt, record w { closed = w.closed ++ fd ∷ [] })
  comm_read_main fd (some []) w = some (tt, record w { closed = w.closed ++ fd ∷ [] })
  comm_read_main fd (some (m ∷ ms)) w = process_new_fd (m ∷ ms) w
