-- ===== src/Comm/Failed.antt =====
-- What the callback of a connection does when its read brings nothing.
use acached.Prelude.{
  ℕ, ◌≡◌, ◌≢◌, refl, ap, ◌∙◌, List, [], ◌∷◌, ◌++◌, Bool, true, false, not, ◌&&◌, ◌||◌, ◌⊎◌, inl,
  inr, Option, none, some, ◌==◌, if◌then◌else◌, arith, ==_refl, Bool-cases,
}
use acached.Conn.{cmd_wait, aerr_type_app, aerr_type_sys}
use acached.Queue.{Ptr, null, remove}
use acached.Queue.FreeBusy.Shared.{FbSharedQ}
use acached.Pool.{a_conn_release}
use acached.Pool.Conserve.{idle, release_lem}
use acached.Receive.{Input, Receiver, process_data_recv, write_data}
use acached.Request.{
  Connection, World, bind_lem, pure, ◌>>=◌, ◌>>◌, with_connection, put_connection, on_conn_pool,
  reset, close_connection,
}
use acached.Comm.{
  eagain, is_cmd_wait, ended, nothing, sent, client_error, recv, recv_step, recv_loop, recv_end,
  reset_connection, comm_read,
}
use acached.Comm.Endless.{Unread, returned, after_call, recv_loop_nothing}

-- The connection is reset and goes back to the pool.
abbrev pub after_close : ℕ → Ptr → ℕ → ℕ → List Ptr → List Ptr → World → World
after_close fd this kind type free busy w = record w {
  closed = w.closed ++ fd ∷ [];
  connections = λ p. if p == this then reset (w.connections this) else w.connections p;
  conn_pool = idle kind type (free ++ this ∷ []) (remove this busy);
}

pub on_conn_pool_lem :
    {A : Type 0} (f : FbSharedQ → Option (A × FbSharedQ)) (w : World) (a : A) (q : FbSharedQ)
    → f w.conn_pool ≡ some (a, q)
    → on_conn_pool f w ≡ some (a, record w { conn_pool = q })
on_conn_pool_lem f w a q e = rw (e, on_conn_pool) refl

pub close_connection_lem :
    (fd kind type : ℕ) (free busy : List Ptr) (this : Ptr) (w : World)
    → w.conn_pool ≡ idle kind type free busy
    → close_connection fd this w ≡ some (tt, after_close fd this kind type free busy w)
unfolding close_connection put_connection a_conn_release
close_connection_lem fd kind type free busy this w e =
    let released : a_conn_release this w.conn_pool
        ≡ some (null, idle kind type (free ++ this ∷ []) (remove this busy)) =
      ap (a_conn_release this) e ∙ release_lem kind type free busy this in
    let left : World = record w {
      closed = w.closed ++ fd ∷ [];
      connections = λ p. if p == this then reset (w.connections this) else w.connections p;
    } in
    bind_lem (on_conn_pool (a_conn_release this)) (λ _. pure tt) left _ null
      (on_conn_pool_lem (a_conn_release this) left null _ released)

-- What a call of `ProcessDataRecv` has made of the connection.
abbrev pub received : Ptr → Receiver → World → World
received this r w = record w {
  connections =
      λ p. if p == this then record (w.connections this) { receiver = r } else w.connections p;
}

-- The connection is another one, and all else is as it was.
pub record Refused (this : Ptr) (c : Connection) (w w' : World) : Type 0 where
  pub connection : w'.connections this ≡ c
  pub others : (p : Ptr) → p ≢ this → w'.connections p ≡ w.connections p
  pub closed : w'.closed ≡ w.closed
  pub posted : w'.posted ≡ w.posted
  pub pool : w'.conn_pool ≡ w.conn_pool
  pub messages : w'.messages ≡ w.messages
  pub msg_pool : w'.msg_pool ≡ w.msg_pool

pub and_not : (b : Bool) → (b && not true) ≡ false
and_not true = refl
and_not false = refl

-- Whether the connection is closed.
abbrev pub hangs_up : Input → Bool
hangs_up input = elim input.available [ none ↦ not (input.errno == eagain) | some _ ↦ true ]

module _ (hash : List ℕ → ℕ) (fresh : ℕ → List Ptr) where
  closing :
      (fd kind type : ℕ) (free busy : List Ptr) (this : Ptr) (w : World)
      → w.conn_pool ≡ idle kind type free busy
      → (close_connection fd this >> pure nothing) w
        ≡ some (nothing, after_close fd this kind type free busy w)
  closing fd kind type free busy this w e =
      bind_lem (close_connection fd this) (λ _. pure nothing) w _ tt
        (close_connection_lem fd kind type free busy this w e)

  recv_end_failed :
      (fd kind type : ℕ) (free busy : List Ptr) (this : Ptr) (input : Input) (w : World)
      → (w.connections this).receiver.aerrtype ≡ aerr_type_sys
      → w.conn_pool ≡ idle kind type free busy
      → recv_end hash fresh fd this (ended none input) w
        ≡ some (
          nothing,
          if not (input.errno == eagain) then after_close fd this kind type free busy w else w,
        )
  unfolding recv_end
  recv_end_failed fd kind type free busy this input w sys pool =
      let r = (w.connections this).receiver in
      let from_system : (r.aerrtype == aerr_type_sys) ≡ true = ground (arith, sys) in
      let not_own : (r.aerrtype == aerr_type_app) ≡ false = ground (arith, sys) in
      elim (Bool-cases (input.errno == eagain)) [
        | inl again ↦ rw (from_system, again, not_own, with_connection) refl
        | inr fails ↦
            rw (from_system, fails, with_connection) (closing fd kind type free busy this w pool)
      ]

  recv_end_nothing :
      (fd kind type : ℕ) (free busy : List Ptr) (this : Ptr) (input : Input) (w : World)
      → Unread input
      → w.conn_pool ≡ idle kind type free busy
      → recv_end hash fresh fd this (ended (returned input) input) (after_call input this w)
        ≡ some (
          nothing,
          if hangs_up input
              then after_close fd this kind type free busy (after_call input this w)
              else after_call input this w,
        )
  unfolding recv_end
  recv_end_nothing fd kind type free busy this input w (inl e) pool =
      let sys : ((after_call input this w).connections this).receiver.aerrtype ≡ aerr_type_sys =
        rw (==_refl this) refl in
      rw e (recv_end_failed fd kind type free busy this input (after_call input this w) sys pool)
  recv_end_nothing fd kind type free busy this input w (inr e) pool =
      rw e (closing fd kind type free busy this (after_call input this w) pool)

  pub no_early :
      (fd : ℕ) (this : Ptr) (early : Option (List ℕ)) (inputs : List Input) (w : World)
      → (is_cmd_wait (w.connections this).receiver.state
          && not (((w.connections this).req_count == 0) || ((w.connections this).reply_count == 0)))
        ≡ false
      → comm_read hash fresh fd this early inputs w
        ≡ (recv_loop hash fresh this inputs >>= recv_end hash fresh fd this) w
  unfolding comm_read
  no_early fd this early inputs w e = rw (e, with_connection) refl

  -- When a connection waits for a command, no data is pending, its requests or its replies are
  -- counted as none, and the mutexes of the connection pool are free, a callback whose read brings
  -- nothing closes the connection if the read returned 0 or failed by another error than EAGAIN:
  -- its socket is closed, the connection is reset and goes back to the pool, and all else stays as
  -- the read left it. With EAGAIN the connection stays as the read left it.
  pub comm_read_nothing :
      (fd kind type : ℕ) (free busy : List Ptr) (this : Ptr) (early : Option (List ℕ))
      (input : Input) (inputs : List Input) (w : World)
      → Unread input
      → (w.connections this).receiver.state ≡ cmd_wait
      → (w.connections this).receiver.data_pending_read ≡ 0
      → ((w.connections this).req_count ≡ 0) ⊎ ((w.connections this).reply_count ≡ 0)
      → w.conn_pool ≡ idle kind type free busy
      → comm_read hash fresh fd this early (input ∷ inputs) w
        ≡ some (
          nothing,
          if hangs_up input
              then after_close fd this kind type free busy (after_call input this w)
              else after_call input this w,
        )
  comm_read_nothing fd kind type free busy this early input inputs w h state none_pending counts
        pool =
      let c = w.connections this in
      let flag : (c.receiver.data_pending_read == 0) ≡ true = ground (arith, none_pending) in
      let run = recv_loop_nothing hash fresh input inputs this w h state in
      let looped : recv_loop hash fresh this (input ∷ inputs) w
          ≡ some (ended (returned input) input, after_call input this w) =
        rw flag at run in
      let rest =
        bind_lem (recv_loop hash fresh this (input ∷ inputs)) (recv_end hash fresh fd this) w _
          (ended (returned input) input) looped
        ∙ recv_end_nothing fd kind type free busy this input w h pool in
      let few : ((c.req_count == 0) || (c.reply_count == 0)) ≡ true = ground (arith, counts) in
      let waits : is_cmd_wait c.receiver.state ≡ true = ap is_cmd_wait state in
      no_early fd this early (input ∷ inputs) w (rw (waits, few) refl) ∙ rest

  -- The first call of a callback refuses what it read, and no more data is pending.
  refused_once :
      (this : Ptr) (input : Input) (inputs : List Input) (r : Receiver) (w : World)
      → process_data_recv input (w.connections this).receiver ≡ some (none, r)
      → r.data_pending_read ≡ 0
      → recv_loop hash fresh this (input ∷ inputs) w ≡ some (ended none input, received this r w)
  unfolding recv_loop recv_step recv put_connection
  refused_once this input inputs r w e none_pending =
      let flag : (r.data_pending_read == 0) ≡ true = ground (arith, none_pending) in
      let got : recv this input w ≡ some (none, received this r w) =
        rw (e, with_connection, recv) refl in
      let step : recv_step hash fresh this input w ≡ some ((none, false), received this r w) =
        bind_lem (recv this input) _ w _ none got in
      bind_lem (recv_step hash fresh this input) _ w _ (none, false) step
      ∙ rw (with_connection, ==_refl this, flag) refl

  recv_end-Refused :
      (fd : ℕ) (this : Ptr) (input : Input) (w : World)
      → let r = (w.connections this).receiver in
        r.aerrtype ≡ aerr_type_app
        → (w' : World) × (recv_end hash fresh fd this (ended none input) w
            ≡ some (sent (client_error r.aerrnum), w'))
          × Refused this
              (reset (record (w.connections this) { receiver = (write_data input.sent r).1 }))
              w
              w'
  unfolding recv_end reset_connection put_connection
  recv_end-Refused fd this input w app =
      let r = (w.connections this).receiver in
      let not_system : (r.aerrtype == aerr_type_sys) ≡ false = ground (arith, app) in
      let own : (r.aerrtype == aerr_type_app) ≡ true = ground (arith, app) in
      rw (not_system, own, with_connection)
        (
          _,
          refl,
          record {
            connection = rw (==_refl this) refl;
            others = λ p other. let ne : (p == this) ≡ false = ground (arith, other) in rw ne refl;
            closed = refl;
            posted = refl;
            pool = refl;
            messages = refl;
            msg_pool = refl;
          },
        )

  -- When `ProcessDataRecv` refuses a command by an error of the protocol and leaves no data pending,
  -- and the requests or the replies of the connection are counted as none, the client is sent a line
  -- with the number of the error, the connection is reset, so that it waits for a command, and all
  -- else is as it was.
  pub comm_read-Refused :
      (fd : ℕ) (this : Ptr) (early : Option (List ℕ)) (input : Input) (inputs : List Input)
      (r : Receiver) (w : World)
      → process_data_recv input (w.connections this).receiver ≡ some (none, r)
      → r.aerrtype ≡ aerr_type_app
      → r.data_pending_read ≡ 0
      → ((w.connections this).req_count ≡ 0) ⊎ ((w.connections this).reply_count ≡ 0)
      → (w' : World) × (comm_read hash fresh fd this early (input ∷ inputs) w
          ≡ some (sent (client_error r.aerrnum), w'))
        × Refused this
            (reset (record (w.connections this) { receiver = (write_data input.sent r).1 }))
            w
            w'
  comm_read-Refused fd this early input inputs r w e app none_pending counts =
      let c = w.connections this in
      let few : ((c.req_count == 0) || (c.reply_count == 0)) ≡ true = ground (arith, counts) in
      let skipped : (is_cmd_wait c.receiver.state
            && not ((c.req_count == 0) || (c.reply_count == 0)))
          ≡ false =
        rw few (and_not (is_cmd_wait c.receiver.state)) in
      let same : ((received this r w).connections this).receiver ≡ r = rw (==_refl this) refl in
      let (w', run, done) =
        recv_end-Refused fd this input (received this r w) (ap (λ x. x.aerrtype) same ∙ app) in
      (
        w',
        no_early fd this early (input ∷ inputs) w skipped
            ∙ bind_lem (recv_loop hash fresh this (input ∷ inputs)) (recv_end hash fresh fd this) w
                _ (ended none input) (refused_once this input inputs r w e none_pending)
            ∙ run
            ∙ ap (λ x. some (sent (client_error x.aerrnum), w')) same,
        record {
          connection = done.connection ∙ rw (==_refl this) refl;
          others = λ p other.
              let ne : (p == this) ≡ false = ground (arith, other) in
              done.others p other ∙ rw ne refl;
          closed = done.closed;
          posted = done.posted;
          pool = done.pool;
          messages = done.messages;
          msg_pool = done.msg_pool;
        },
      )
