-- ===== src/Comm/Endless.antt =====
-- The loop of reads of a connection whose flag for pending data is left set.
use acached.Prelude.{
  ℕ, ◌≡◌, ◌≢◌, refl, ◌∙◌, List, [], ◌∷◌, false, ◌⊎◌, inl, inr, Option, none, some, ◌==◌,
  if◌then◌else◌, arith, ==_refl, Bool-cases,
}
use acached.Conn.{cmd_wait}
use acached.Queue.{Ptr}
use acached.Receive.{Input, Receiver, sys_error, cmd_wait_init, update, receive_header}
use acached.Receive.Version.{in_cmd_wait}
use acached.Request.{World, bind_lem, with_connection, put_connection}
use acached.Comm.{ended, running, positive, recv, recv_step, recv_loop}

-- The socket has nothing to read, or is closed, or fails.
abbrev pub Unread : Input → Type 0
Unread input = (input.available ≡ none) ⊎ (input.available ≡ some [])

-- The buffer that is allocated for the read, and the error.
abbrev pub after_read : Input → Receiver → Receiver
after_read input r = sys_error input.errno (
    update r.iov_index
      (record (r.buffers r.iov_index) { alloc_size = cmd_wait_init; memory = input.fresh }) r)

abbrev pub returned : Input → Option ℕ
returned input = elim input.available [ none ↦ none | some _ ↦ some 0 ]

receive_nothing :
    (input : Input) (r : Receiver)
    → Unread input
    → receive_header input r ≡ some (returned input, after_read input r)
unfolding receive_header
receive_nothing input r (inl e) = rw (e, receive_header) refl
receive_nothing input r (inr e) = rw (e, receive_header) refl

not_positive : (input : Input) → Unread input → positive (returned input) ≡ false
not_positive input (inl e) = rw e refl
not_positive input (inr e) = rw e refl

-- The world behind a call that gets nothing.
abbrev pub after_call : Input → Ptr → World → World
after_call input this w = record w {
  connections = λ p.
      if p == this
      then record (w.connections this) { receiver = after_read input (w.connections this).receiver }
      else w.connections p;
}

recv_nothing :
    (input : Input) (this : Ptr) (w : World)
    → Unread input
    → (w.connections this).receiver.state ≡ cmd_wait
    → recv this input w ≡ some (returned input, after_call input this w)
unfolding recv put_connection
recv_nothing input this w h e =
    let c = w.connections this in
    rw (in_cmd_wait input c.receiver e ∙ receive_nothing input c.receiver h, with_connection, recv)
      refl

module _ (hash : List ℕ → ℕ) (fresh : ℕ → List Ptr) where
  pub recv_step_nothing :
      (input : Input) (this : Ptr) (w : World)
      → Unread input
      → (w.connections this).receiver.state ≡ cmd_wait
      → recv_step hash fresh this input w ≡ some ((returned input, false), after_call input this w)
  unfolding recv_step
  recv_step_nothing input this w h e =
      bind_lem (recv this input) _ w _ (returned input) (recv_nothing input this w h e)
      ∙ rw (not_positive input h, with_connection) refl

  -- One round of the loop.
  pub recv_loop_nothing :
      (input : Input) (inputs : List Input) (this : Ptr) (w : World)
      → Unread input
      → (w.connections this).receiver.state ≡ cmd_wait
      → recv_loop hash fresh this (input ∷ inputs) w ≡ (
          if (w.connections this).receiver.data_pending_read == 0
          then some (ended (returned input) input, after_call input this w)
          else recv_loop hash fresh this inputs (after_call input this w))
  unfolding recv_loop update
  recv_loop_nothing input inputs this w h e =
      bind_lem (recv_step hash fresh this input) _ w _ (returned input, false)
        (recv_step_nothing input this w h e)
      ∙ elim (Bool-cases ((w.connections this).receiver.data_pending_read == 0)) [
        | inl none_pending ↦
            rw (not_positive input h, with_connection, ==_refl this, none_pending) refl
        | inr pending ↦ rw (not_positive input h, with_connection, ==_refl this, pending) refl
      ]

  abbrev pub AllUnread : List Input → Type 0
  AllUnread [] = Unit {0}
  AllUnread (input ∷ inputs) = Unread input × AllUnread inputs

  abbrev pub after_calls : List Input → Ptr → World → World
  after_calls [] this w = w
  after_calls (input ∷ inputs) this w = after_calls inputs this (after_call input this w)

  -- When a connection waits for a command and its flag for pending data is set, the loop of the
  -- callback does not end as long as the socket brings nothing, has been closed by the client, or
  -- fails: each round allocates a buffer for a read and nothing else happens.
  pub recv_loop_endless :
      (inputs : List Input) (this : Ptr) (w : World)
      → AllUnread inputs
      → (w.connections this).receiver.state ≡ cmd_wait
      → (w.connections this).receiver.data_pending_read ≢ 0
      → recv_loop hash fresh this inputs w ≡ some (running, after_calls inputs this w)
  unfolding recv_loop update
  recv_loop_endless [] this w all e pending = refl
  recv_loop_endless (input ∷ inputs) this w (h, all) e pending =
      let more : ((w.connections this).receiver.data_pending_read == 0) ≡ false =
        ground (arith, pending) in
      recv_loop_nothing input inputs this w h e
      ∙ rw more (
          recv_loop_endless inputs this (after_call input this w) all (rw (==_refl this) e)
            (λ z. pending (rw (==_refl this) at z)))
