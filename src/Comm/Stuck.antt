-- ===== src/Comm/Stuck.antt =====
-- The callback of a connection behind a complete gets command that names no key.
use acached.Prelude.{
  ℕ, ◌≤◌, ◌≡◌, ◌≢◌, refl, sym, ap, ◌∙◌, subst, List, [], ◌∷◌, ◌++◌, true, false, some, ◌==◌,
  if◌then◌else◌, arith, ==_refl, drop,
}
use acached.Conn.{cmd_wait}
use acached.Queue.{Ptr, null}
use acached.Pool.Conserve.{idle}
use acached.Message.{Msg, kvdata, init}
use acached.Parse.Tokens.Words.{words}
use acached.Parse.Command.{gets}
use acached.Parse.Header.{c_string}
use acached.Request.{
  Connection, World, bind_lem, with_connection, put_message, put_connection, reset, allocate,
  post2kvdata_tsq, post2kvdata_gets_pre, post_command, pure, ◌>>◌,
}
use acached.Request.Order.{free_queue}
use acached.Request.Keys.{allocate_first}
use acached.Request.Stuck.{Stuck, post2kvdata_tsq-Stuck}
use acached.Comm.{is_quit, reset_connection, completed}

-- The connection waits for a command and is not in the pending state, but it is busy, and no command
-- of it is with a store thread or pending.
pub record Halted (this : Ptr) (qtype : ℕ) (w w' : World) : Type 0 where
  pub busy : (w'.connections this).busy ≡ 1
  pub conc_pending : (w'.connections this).conc_pending ≡ 0
  pub state : (w'.connections this).receiver.state ≡ cmd_wait
  pub pending : (w'.connections this).pending_cmd_q ≡ free_queue qtype []
  pub posted : w'.posted ≡ w.posted

-- The message of the command that `Post2KVdataGetsPre` makes.
abbrev command_of : Ptr → World → Msg
command_of this w =
    let r = (w.connections this).receiver in
    record (init kvdata this r.cmd.ctype) { cmdptr = some (r.buffers r.iov_index).memory }

abbrev ready : Ptr → ℕ → ℕ → Ptr → List Ptr → List Ptr → World → World
ready this kind type p free busy w = record w {
  msg_pool = idle kind type free (busy ++ p ∷ []);
  messages = λ q. if q == p then command_of this w else w.messages q;
}

-- The callback first lets the connection wait for a command, and at last resets it.
abbrev waits : Connection → Connection
waits c = record c { receiver = record c.receiver { state = cmd_wait } }

abbrev with_wait : Ptr → World → World
with_wait this w = record w {
  connections = λ q. if q == this then waits (w.connections this) else w.connections q;
}

abbrev with_reset : Ptr → World → World
with_reset this w = record w {
  connections = λ q. if q == this then reset (w.connections this) else w.connections q;
}

Stuck-Halted :
    (this : Ptr) (qtype : ℕ) (w w' : World)
    → Stuck this (with_wait this w) w'
    → (w.connections this).pending_cmd_q ≡ free_queue qtype []
    → Halted this qtype w (with_reset this w')
unfolding reset
Stuck-Halted this qtype w w' stuck none_pending =
    let same : (with_wait this w).connections this ≡ waits (w.connections this) =
      rw (==_refl this) refl in
    let pending = stuck.pending ∙ ap (λ x. x.pending_cmd_q) same ∙ none_pending in
    record {
      busy = rw (==_refl this) stuck.busy;
      conc_pending = rw (==_refl this) refl;
      state = rw (==_refl this) refl;
      pending = rw (==_refl this) pending;
      posted = stuck.posted;
    }

module _ (hash : List ℕ → ℕ) (fresh : ℕ → List Ptr) where
  post_gets :
      (this p : Ptr) (kind type : ℕ) (free busy : List Ptr) (w w' : World)
      → p ≢ null
      → (w.connections this).receiver.cmd.ctype ≡ gets
      → (w.connections this).receiver.iov_index ≡ 0
      → w.msg_pool ≡ idle kind type (p ∷ free) busy
      → post2kvdata_tsq hash fresh this p (ready this kind type p free busy w) ≡ some (tt, w')
      → post_command hash fresh this w ≡ some (true, w')
  unfolding post_command post2kvdata_gets_pre put_message
  post_gets this p kind type free busy w w' real ctype index pool run =
      let made = allocate_first fresh hash kind type p free busy w real pool in
      let first : ((w.connections this).receiver.iov_index == 0) ≡ true = ground (arith, index) in
      let pre : post2kvdata_gets_pre hash fresh this w ≡ some (tt, w') =
        rw (first, with_connection) (bind_lem (allocate hash fresh) _ w _ p made ∙ run) in
      rw (ctype, with_connection)
        (bind_lem (post2kvdata_gets_pre hash fresh this) (λ _. pure true) w w' tt pre)

  posted-Stuck :
      (this p : Ptr) (text : List ℕ) (qtype kind type : ℕ) (free busy : List Ptr) (w : World)
      → p ≢ null
      → (w.connections this).receiver.cmd.ctype ≡ gets
      → (w.connections this).receiver.iov_index ≡ 0
      → c_string ((w.connections this).receiver.buffers 0).memory ≡ some text
      → drop 1 (words text) ≡ []
      → (w.connections this).busy ≡ 0
      → (w.connections this).pending_cmd_q ≡ free_queue qtype []
      → (w.connections this).conc_pending ≤ 1
      → w.msg_pool ≡ idle kind type (p ∷ free) busy
      → (w' : World) × (post_command hash fresh this w ≡ some (true, w')) × Stuck this w w'
  unfolding init
  posted-Stuck this p text qtype kind type free busy w real ctype index s k idle_now none_pending
        flag pool =
      let c = w.connections this in
      let w3 = ready this kind type p free busy w in
      let is_m : w3.messages p ≡ command_of this w = rw (==_refl p) refl in
      let to : (w3.messages p).a_c ≡ this = ap (λ x. x.a_c) is_m in
      let memory : (w3.messages p).cmdptr ≡ some (c.receiver.buffers 0).memory =
        ap (λ x. x.cmdptr) is_m ∙ ap (λ i. some (c.receiver.buffers i).memory) index in
      let (w4, run, stuck) =
        post2kvdata_tsq-Stuck hash fresh this p (c.receiver.buffers 0).memory text qtype kind type
          free (busy ++ p ∷ []) w3 real idle_now none_pending flag ctype to memory s k refl in
      (
        w4,
        post_gets this p kind type free busy w w4 real ctype index pool run,
        record {
          busy = stuck.busy;
          conc_pending = stuck.conc_pending;
          posted = stuck.posted;
          receiver = stuck.receiver;
          pending = stuck.pending;
        },
      )

  completed_gets :
      (this : Ptr) (w w' : World)
      → (w.connections this).receiver.cmd.ctype ≡ gets
      → (w'.connections this).receiver.cmd.ctype ≡ gets
      → post_command hash fresh this (with_wait this w) ≡ some (true, w')
      → completed hash fresh this w ≡ some (false, with_reset this w')
  unfolding completed reset_connection put_connection
  completed_gets this w w' ctype type_now run =
      let stays : is_quit (w'.connections this).receiver.cmd.ctype ≡ false = ap is_quit type_now in
      let rest : (with_connection this
            (λ c.
              if is_quit c.receiver.cmd.ctype
              then pure true
              else (reset_connection this >> pure false))
            w')
          ≡ some (false, with_reset this w') =
        rw (stays, with_connection) refl in
      rw (ctype, with_connection)
        (bind_lem (post_command hash fresh this) _ (with_wait this w) w' true run ∙ rest)

  -- When a connection is free with no command pending, its pending flag is 0 or 1, and the mutexes
  -- of the message pool are free, where a message is free too, a complete gets command that names
  -- no key leaves the connection, behind the reset that follows, busy and with its pending flag
  -- reset, while none of its commands is pending and nothing was posted to a store thread that
  -- would free it.
  pub completed-Halted :
      (this p : Ptr) (text : List ℕ) (qtype kind type : ℕ) (free busy : List Ptr) (w : World)
      → p ≢ null
      → (w.connections this).receiver.cmd.ctype ≡ gets
      → (w.connections this).receiver.iov_index ≡ 0
      → c_string ((w.connections this).receiver.buffers 0).memory ≡ some text
      → drop 1 (words text) ≡ []
      → (w.connections this).busy ≡ 0
      → (w.connections this).pending_cmd_q ≡ free_queue qtype []
      → (w.connections this).conc_pending ≤ 1
      → w.msg_pool ≡ idle kind type (p ∷ free) busy
      → (w' : World) × (completed hash fresh this w ≡ some (false, w')) × Halted this qtype w w'
  completed-Halted this p text qtype kind type free busy w real ctype index s k idle_now
        none_pending flag pool =
      let w1 = with_wait this w in
      let same : w1.connections this ≡ waits (w.connections this) = rw (==_refl this) refl in
      let type_first = ap (λ x. x.receiver.cmd.ctype) same ∙ ctype in
      let (w2, run, stuck) =
        posted-Stuck this p text qtype kind type free busy w1 real type_first
          (ap (λ x. x.receiver.iov_index) same ∙ index)
          (ap (λ x. c_string (x.receiver.buffers 0).memory) same ∙ s) k
          (ap (λ x. x.busy) same ∙ idle_now) (ap (λ x. x.pending_cmd_q) same ∙ none_pending)
          (subst (λ x. x.conc_pending ≤ 1) (sym same) flag) pool in
      (
        with_reset this w2,
        completed_gets this w w2 ctype (ap (λ r. r.cmd.ctype) stuck.receiver ∙ type_first) run,
        Stuck-Halted this qtype w w2 stuck none_pending,
      )
