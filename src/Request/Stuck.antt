-- ===== src/Request/Stuck.antt =====
-- A gets command without keys.
use acached.Prelude.{
  ℕ, ◌≤◌, ◌≡◌, ◌≢◌, refl, sym, ap, ◌∙◌, List, [], ◌∷◌, ◌++◌, some, ◌==◌, if◌then◌else◌, arith,
  ==_refl, drop,
}
use acached.Atomic.{atomic_set, compare_and_swap}
use acached.Queue.{Ptr, null, remove}
use acached.Pool.{a_msg_release}
use acached.Pool.Conserve.{idle, release_lem}
use acached.Parse.Tokens.Words.{words}
use acached.Parse.Command.{gets}
use acached.Parse.Header.{c_string}
use acached.Request.{
  World, bind_lem, with_connection, with_message, on_msg_pool, put_connection, post_keys,
  post2kvdata_gets, dispatch, post2kvdata_tsq,
}
use acached.Request.Order.{free_queue, post2kvdata_tsq-Taken}
use acached.Request.Keys.{on_msg_pool_lem}

-- The connection is busy and waits for keys, and nothing was posted.
pub record Stuck (this : Ptr) (w w' : World) : Type 0 where
  pub busy : (w'.connections this).busy ≡ 1
  pub conc_pending : (w'.connections this).conc_pending ≡ 1
  pub posted : w'.posted ≡ w.posted
  pub receiver : (w'.connections this).receiver ≡ (w.connections this).receiver
  pub pending : (w'.connections this).pending_cmd_q ≡ (w.connections this).pending_cmd_q

module _ (hash : List ℕ → ℕ) (fresh : ℕ → List Ptr) where
  no_keys :
      (this cmd : Ptr) (memory text : List ℕ) (kind type : ℕ) (free busy : List Ptr) (w : World)
      → (w.messages cmd).cmdptr ≡ some memory
      → c_string memory ≡ some text
      → drop 1 (words text) ≡ []
      → w.msg_pool ≡ idle kind type free busy
      → (w.connections this).conc_pending ≤ 1
      → (w.connections this).busy ≡ 1
      → (w' : World) × (post2kvdata_gets hash fresh this cmd w ≡ some (tt, w')) × Stuck this w w'
  unfolding post2kvdata_gets post_keys put_connection atomic_set compare_and_swap a_msg_release
  no_keys this cmd memory text kind type free busy w m s k e flag is_busy =
      let c = w.connections this in
      let w1 : World = record w {
        connections = λ p.
            if p == this
            then record c { conc_pending = (atomic_set c.conc_pending).1 }
            else w.connections p;
      } in
      let set : (if c.conc_pending == 0 then 1 else c.conc_pending) ≡ 1 = ground (arith, flag) in
      let released =
        on_msg_pool_lem (a_msg_release cmd) w1 null
          (idle kind type (free ++ cmd ∷ []) (remove cmd busy))
          (ap (a_msg_release cmd) e ∙ release_lem kind type free busy cmd) in
      (
        record w1 { msg_pool = idle kind type (free ++ cmd ∷ []) (remove cmd busy) },
        rw (m, s, k, with_message)
            (bind_lem (on_msg_pool (a_msg_release cmd)) _ w1 _ null released),
        record {
          busy = rw (==_refl this) is_busy;
          conc_pending = rw (==_refl this) set;
          posted = refl;
          receiver = rw (==_refl this) refl;
          pending = rw (==_refl this) refl;
        },
      )

  dispatch_gets :
      (this ptr : Ptr) (w : World)
      → (w.messages ptr).a_c ≡ this
      → (w.connections this).receiver.cmd.ctype ≡ gets
      → dispatch hash fresh this ptr w ≡ post2kvdata_gets hash fresh this ptr w
  unfolding dispatch
  dispatch_gets this ptr w to type = rw (to, type, with_message, with_connection) refl

  -- When a connection is free with no command pending, its pending flag is 0 or 1, and the mutexes
  -- are free, the message of a gets command that names no key leaves it busy, with nothing posted.
  pub post2kvdata_tsq-Stuck :
      (this ptr : Ptr) (memory text : List ℕ) (qtype kind type : ℕ) (free busy : List Ptr)
      (w : World)
      → ptr ≢ null
      → (w.connections this).busy ≡ 0
      → (w.connections this).pending_cmd_q ≡ free_queue qtype []
      → (w.connections this).conc_pending ≤ 1
      → (w.connections this).receiver.cmd.ctype ≡ gets
      → (w.messages ptr).a_c ≡ this
      → (w.messages ptr).cmdptr ≡ some memory
      → c_string memory ≡ some text
      → drop 1 (words text) ≡ []
      → w.msg_pool ≡ idle kind type free busy
      → (w' : World) × (post2kvdata_tsq hash fresh this ptr w ≡ some (tt, w')) × Stuck this w w'
  post2kvdata_tsq-Stuck this ptr memory text qtype kind type free busy w real idle_now none_pending
        flag ctype to m s k e =
      let (w1, run, t) =
        post2kvdata_tsq-Taken hash fresh this ptr ptr qtype [] [] w real real idle_now none_pending
          refl in
      let f = t.conc_pending in
      let (w2, run', stuck) =
        no_keys this ptr memory text kind type free busy w1
          (ap (λ ms. (ms ptr).cmdptr) t.messages ∙ m) s k (t.msg_pool ∙ e) (omega (arith, f, flag))
          t.busy in
      (
        w2,
        run
            ∙ dispatch_gets this ptr w1 (ap (λ ms. (ms ptr).a_c) t.messages ∙ to)
                (ap (λ r. r.cmd.ctype) t.receiver ∙ ctype)
            ∙ run',
        record {
          busy = stuck.busy;
          conc_pending = stuck.conc_pending;
          posted = stuck.posted ∙ t.posted;
          receiver = stuck.receiver ∙ t.receiver;
          pending = stuck.pending ∙ t.pending ∙ sym none_pending;
        },
      )
