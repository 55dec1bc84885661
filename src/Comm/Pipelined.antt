-- ===== src/Comm/Pipelined.antt =====
-- A version line behind which the client sends more, as pipelined requests are.
use acached.Prelude.{
  ℕ, ◌≤◌, ◌≡◌, refl, ap, ◌∙◌, List, ◌∷◌, ◌++◌, true, false, not, ◌&&◌, ◌||◌, ◌⊎◌, Option, some,
  ◌==◌, if◌then◌else◌, length, arith, ==_refl,
}
use acached.Conn.{cmd_wait}
use acached.Queue.{Ptr}
use acached.Parse.Command.{version}
use acached.Parse.Line.Ends.{contains}
use acached.Receive.{Receiver, Input, cmd_wait_init, process_data_recv}
use acached.Request.{World, bind_lem, with_connection, put_connection, reset}
use acached.Comm.{
  running, still_running, recv, completed, recv_step, recv_loop, recv_end, comm_read, is_cmd_wait,
  is_cmd_done, reset_connection,
}
use acached.Receive.Version.{version_line, bytes, found, Came, some_found, received_version}
use acached.Comm.Endless.{AllUnread, after_calls, recv_loop_endless}
use acached.Comm.Failed.{received, no_early, and_not}

-- The connection is reset behind the command.
abbrev after_reset : Ptr → World → World
after_reset this w = record w {
  connections = λ p. if p == this then reset (w.connections this) else w.connections p;
}

module _ (hash : List ℕ → ℕ) (fresh : ℕ → List Ptr) where
  completed_version :
      (this : Ptr) (w : World)
      → (w.connections this).receiver.cmd.ctype ≡ version
      → completed hash fresh this w ≡ some (false, after_reset this w)
  unfolding completed reset_connection put_connection
  completed_version this w e = simp (with_connection, e) refl

  recv_lem :
      (this : Ptr) (input : Input) (ret : Option ℕ) (r : Receiver) (w : World)
      → process_data_recv input (w.connections this).receiver ≡ some (ret, r)
      → recv this input w ≡ some (ret, received this r w)
  unfolding recv put_connection
  recv_lem this input ret r w e = rw (e, with_connection, recv) refl

  -- The call that takes the line, and the reset behind it.
  module _ (more rest : List ℕ) (x : ℕ) (this : Ptr) (input : Input) (r : Receiver) (w : World)
      (run : process_data_recv input (w.connections this).receiver
        ≡ some (some (found more rest x), r))
      (came : Came more rest x r) (le : length (bytes more rest x) ≤ cmd_wait_init) where
    abbrev after_version : World
    after_version = after_reset this (received this r w)

    recv_step_version :
        recv_step hash fresh this input w ≡ some ((some (found more rest x), false), after_version)
    unfolding recv_step
    recv_step_version =
        let arrived : (received this r w).connections this
            ≡ record (w.connections this) { receiver = r } =
          rw (==_refl this) refl in
        let done : is_cmd_done ((received this r w).connections this).receiver.state ≡ true =
          ap (λ c. is_cmd_done c.receiver.state) arrived ∙ ap is_cmd_done came.state in
        let typed_version : ((received this r w).connections this).receiver.cmd.ctype ≡ version =
          ap (λ c. c.receiver.cmd.ctype) arrived ∙ came.ctype in
        bind_lem (recv this input) _ w _ (some (found more rest x))
          (recv_lem this input (some (found more rest x)) r w run)
        ∙ simp (with_connection, done, some_found more rest x le)
            (bind_lem (completed hash fresh this) _ (received this r w) after_version false
              (completed_version this (received this r w) typed_version))

    recv_loop_version :
        (inputs : List Input)
        → recv_loop hash fresh this (input ∷ inputs) w
          ≡ recv_loop hash fresh this inputs after_version
    unfolding recv_loop
    recv_loop_version inputs =
        bind_lem (recv_step hash fresh this input) _ w _ (some (found more rest x), false)
          recv_step_version
        ∙ simp (with_connection, some_found more rest x le) refl

    pending_left :
        ((after_version.connections this).receiver.state ≡ cmd_wait)
        × ((after_version.connections this).receiver.data_pending_read ≡ 1)
    unfolding reset
    pending_left = (rw (==_refl this) refl, rw (==_refl this) came.pending)

  -- When a connection waits for a command in a clear buffer, its requests or its replies are counted
  -- as none, and a read takes at most 32768 bytes that begin with a version line, ended by the first
  -- CR LF without a CR before it, and go on behind it: as long as the further reads bring nothing,
  -- because there is nothing yet, the client has closed the connection, or the read failed, the
  -- callback does not return.
  pub pipelined_endless :
      (fd : ℕ) (this : Ptr) (early : Option (List ℕ)) (more rest : List ℕ) (x : ℕ) (input : Input)
      (inputs : List Input) (w : World)
      → (w.connections this).receiver.state ≡ cmd_wait
      → ((w.connections this).receiver.buffers (w.connections this).receiver.iov_index).iov_len ≡ 0
      → ((w.connections this).req_count ≡ 0) ⊎ ((w.connections this).reply_count ≡ 0)
      → input.available ≡ some (version_line more ++ b'\r' ∷ b'\n' ∷ x ∷ rest)
      → contains b'\r' more ≡ false
      → length (version_line more ++ b'\r' ∷ b'\n' ∷ x ∷ rest) ≤ cmd_wait_init
      → AllUnread hash fresh inputs
      → (w' : World) × (comm_read hash fresh fd this early (input ∷ inputs) w
          ≡ some (still_running, w'))
  unfolding recv_end
  pipelined_endless fd this early more rest x input inputs w state clear_len counts taken h le all =
      let c = w.connections this in
      let (r, run, came) =
        received_version more rest x input c.receiver state h le clear_len taken in
      let w1 = after_version more rest x this input r w run came le in
      let (waits, pending) = pending_left more rest x this input r w run came le in
      let few : ((c.req_count == 0) || (c.reply_count == 0)) ≡ true = ground (arith, counts) in
      let skipped : (is_cmd_wait c.receiver.state
            && not ((c.req_count == 0) || (c.reply_count == 0)))
          ≡ false =
        rw few (and_not (is_cmd_wait c.receiver.state)) in
      (
        after_calls hash fresh inputs this w1,
        no_early hash fresh fd this early (input ∷ inputs) w skipped
            ∙ bind_lem (recv_loop hash fresh this (input ∷ inputs)) (recv_end hash fresh fd this) w
                _ running
                (recv_loop_version more rest x this input r w run came le inputs
                  ∙ recv_loop_endless hash fresh inputs this w1 all waits
                      (λ z. absurd (omega (arith, z, pending)))),
      )
