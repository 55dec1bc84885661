-- ===== src/Tests/Comm.antt =====
-- A connection that waits for a command, one that was refused a body, and the pipe of the thread.
use acached.Prelude.{ℕ, ◌≡◌, refl, [], ◌∷◌, ◌++◌, false, none, some, arith, inl, inr, map}
use acached.Conn.{cmd_wait}
use acached.Pool.Conserve.{idle}
use acached.Receive.{
  Receiver, Input, process_data_recv, in_state, receive_body, write_data, app_error,
  aerr_tokenizer_cmd_invalid_datalen,
}
use acached.Conn.{cmd_done}
use acached.Parse.Command.{gets}
use acached.Parse.Header.{c_string}
use acached.Parse.Tokens.Words.{words, words_from}
use acached.Request.{World, post2kvdata_tsq, dispatch, reset}
use acached.Request.Order.{with_pending, Taken}
use acached.Comm.{
  init_fd, still_running, nothing, sent, client_error, check_pending_cmd_q, comm_read,
  process_pipe_msg, process_new_fd, completed,
}
use acached.Comm.Stuck.{Halted, completed-Halted}
use acached.Comm.Endless.{after_call}
use acached.Comm.Pipelined.{pipelined_endless}
use acached.Receive.Version.{version_line}
use acached.Parse.Line.Ends.{contains}
use acached.Comm.Failed.{after_close, Refused, comm_read_nothing, comm_read-Refused}
use acached.Comm.Opened.{Opened, process_new_fd-Opened, process_new_fd_exhausted, reused_busy}
use acached.Comm.Notified.{process_pipe_msg-Taken}
use acached.Tests.Receive.{clear, waits, reads, hi}
use acached.Tests.Request.{sum, never, connection, world}

-- The flag for pending data, as given.
abbrev waiting : ℕ → World
waiting flag = record (world 0 []) {
  connections =
      λ p. record (connection 0 []) { receiver = record (waits clear flag) { state = cmd_wait } };
}

abbrev hung_up : Input
hung_up = reads (some [])

-- "version", CR LF, and the "g" of the next command.
abbrev pipelined : Input
pipelined = reads (some (version_line [] ++ b'\r' ∷ b'\n' ∷ b'g' ∷ []))

pipelined_endless_example :
    (w' : World) × (comm_read sum never 9 1 none (pipelined ∷ hung_up ∷ reads none ∷ []) (waiting 0)
      ≡ some (still_running, w'))
unfolding contains
pipelined_endless_example =
    pipelined_endless sum never 9 1 none [] [] b'g' pipelined (hung_up ∷ reads none ∷ [])
      (waiting 0) refl (omega arith) (inl (omega arith)) refl refl (omega arith)
      (inr refl, (inl refl, tt))

comm_read_nothing_example :
    comm_read sum never 9 1 none (hung_up ∷ []) (waiting 0)
    ≡ some (nothing, after_close 9 1 303 304 [] (1 ∷ []) (after_call hung_up 1 (waiting 0)))
comm_read_nothing_example =
    comm_read_nothing sum never 9 303 304 [] (1 ∷ []) 1 none hung_up [] (waiting 0) (inr refl) refl
      (omega arith) (inl (omega arith)) refl

-- A set command without a value.
abbrev empty_body : Receiver
empty_body = record (waits clear 0) { cmd = record hi { datalen = 0 } }

abbrev refused : Receiver
refused = app_error aerr_tokenizer_cmd_invalid_datalen (record empty_body { state = cmd_done })

abbrev empty_world : World
empty_world = record (world 0 []) {
  connections = λ p. record (connection 0 []) { receiver = empty_body };
}

comm_read-Refused_example :
    (w' : World) × (comm_read sum never 9 1 none (hung_up ∷ []) empty_world
      ≡ some (sent (client_error refused.aerrnum), w'))
    × Refused 1
        (reset
          (record (empty_world.connections 1) { receiver = (write_data hung_up.sent refused).1 }))
        empty_world
        w'
unfolding process_data_recv in_state receive_body
comm_read-Refused_example =
    comm_read-Refused sum never 9 1 none hung_up [] refused empty_world refl refl (omega arith)
      (inl (omega arith))

-- Two free connections in the pool.
abbrev two_free : World
two_free = record (world 1 (6 ∷ [])) { conn_pool = idle 303 304 (2 ∷ 3 ∷ []) (1 ∷ []) }

process_new_fd-Opened_example :
    (w' : World) × (process_new_fd sum never (map init_fd (10 ∷ 11 ∷ [])) two_free ≡ some (tt, w'))
    × Opened (10 ∷ 11 ∷ []) (2 ∷ 3 ∷ []) two_free w'
    × (w'.conn_pool ≡ idle 303 304 [] (1 ∷ 2 ∷ 3 ∷ []))
process_new_fd-Opened_example =
    process_new_fd-Opened sum never (10 ∷ 11 ∷ []) (2 ∷ 3 ∷ []) [] (1 ∷ []) 303 304 two_free
      (omega arith) (omega arith, (omega arith, tt)) ((omega arith, tt), (tt, tt)) refl

process_new_fd_exhausted_example : process_new_fd sum never (init_fd 10 ∷ []) (world 0 []) ≡ none
process_new_fd_exhausted_example =
    process_new_fd_exhausted sum never 10 303 304 [] (1 ∷ []) (world 0 []) refl

reused_busy_example :
    (w' : World) × (process_pipe_msg sum never (init_fd 10) two_free ≡ some (tt, w'))
    × ((w'.connections 2).c_sock_fd ≡ 10)
    × (w'.posted ≡ two_free.posted)
    × (post2kvdata_tsq sum never 2 5 w' ≡ some (tt, with_pending 2 1234 (6 ∷ 5 ∷ []) w'))
reused_busy_example =
    reused_busy sum never 10 303 304 1234 2 5 (3 ∷ []) (1 ∷ []) (6 ∷ []) two_free (omega arith) refl
      (omega arith) refl

process_pipe_msg-Taken_example :
    (w' : World) × (process_new_fd sum never
        (check_pending_cmd_q (connection 0 (6 ∷ [])) [])
        (world 0 (6 ∷ []))
      ≡ dispatch sum never 1 6 w')
    × Taken sum never 1 1234 [] (world 0 (6 ∷ [])) w'
process_pipe_msg-Taken_example =
    process_pipe_msg-Taken sum never 1 6 303 304 1234 [] [] [] [] (world 0 (6 ∷ [])) (omega arith)
      (omega arith) refl tt (omega arith) refl

-- A connection that has read "gets", with the two bytes behind it overwritten.
abbrev no_key : World
no_key = record (world 0 []) {
  connections = λ p. record (connection 0 []) {
    receiver = record (waits clear 0) {
      state = cmd_done;
      cmd = record hi { ctype = gets };
      buffers = λ i. record (clear) { memory = b'g' ∷ b'e' ∷ b't' ∷ b's' ∷ b' ' ∷ 0 ∷ [] };
    };
  };
}

completed-Halted_example :
    (w' : World) × (completed sum never 1 no_key ≡ some (false, w')) × Halted 1 1234 no_key w'
unfolding c_string words words_from
completed-Halted_example =
    completed-Halted sum never 1 7 (b'g' ∷ b'e' ∷ b't' ∷ b's' ∷ b' ' ∷ []) 1234 301 302 (8 ∷ [])
      (5 ∷ []) no_key (omega arith) refl refl refl refl refl refl (omega arith) refl
