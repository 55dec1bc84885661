-- ===== src/Request/Order.antt =====
-- The order in which the messages of a connection are taken.
use acached.Prelude.{
  ℕ, ◌≡◌, ◌≢◌, refl, sym, ap, ◌∙◌, subst, List, [], ◌∷◌, ◌++◌, true, false, some, ◌==◌,
  if◌then◌else◌, arith, ==_refl,
}
use acached.Queue.{Ptr, null, a_q_put, a_q_get}
use acached.Queue.Shared.{SharedQ, a_sq_put, a_sq_get, adapt_lock, adapt_un_lock}
use acached.Request.{
  World, pure, bind_lem, on_pending, put_connection, dispatch, post2kvdata_tsq, queue, set_busy,
  take_first,
}

-- A queue whose mutex is free.
abbrev pub free_queue : ℕ → List Ptr → SharedQ
free_queue type items = record { q = record { type = type; items = items }; locked = false }

-- The connection with another queue of pending messages.
abbrev pub with_pending : Ptr → ℕ → List Ptr → World → World
with_pending this type items w = record w {
  connections = λ p.
      if p == this
      then record (w.connections this) { pending_cmd_q = free_queue type items }
      else w.connections p;
}

put_pending :
    (this ptr : Ptr) (type : ℕ) (items : List Ptr) (w : World)
    → (w.connections this).pending_cmd_q ≡ free_queue type items
    → on_pending this (a_sq_put ptr) w ≡ some (0, with_pending this type (items ++ ptr ∷ []) w)
unfolding a_sq_put adapt_lock adapt_un_lock a_q_put
put_pending this ptr type items w e = rw (e, on_pending, a_sq_put) refl

get_pending :
    (this first : Ptr) (type : ℕ) (rest : List Ptr) (w : World)
    → (w.connections this).pending_cmd_q ≡ free_queue type (first ∷ rest)
    → on_pending this a_sq_get w ≡ some (first, with_pending this type rest w)
unfolding a_sq_get adapt_lock adapt_un_lock a_q_get
get_pending this first type rest w e = rw (e, on_pending, a_sq_get) refl

get_pending_empty :
    (this : Ptr) (type : ℕ) (w : World)
    → (w.connections this).pending_cmd_q ≡ free_queue type []
    → on_pending this a_sq_get w ≡ some (null, with_pending this type [] w)
unfolding a_sq_get adapt_lock adapt_un_lock a_q_get
get_pending_empty this type w e = rw (e, on_pending, a_sq_get) refl

-- The connection busy.
abbrev pub with_busy : Ptr → World → World
with_busy this w = record w {
  connections =
      λ p. if p == this then record (w.connections this) { busy = 1 } else w.connections p;
}

module _ (hash : List ℕ → ℕ) (fresh : ℕ → List Ptr) where
  queue_lem :
      (this ptr : Ptr) (type : ℕ) (items : List Ptr) (w : World)
      → (w.connections this).pending_cmd_q ≡ free_queue type items
      → queue hash fresh this ptr w ≡ some (tt, with_pending this type (items ++ ptr ∷ []) w)
  unfolding queue
  queue_lem this ptr type items w e =
      bind_lem (on_pending this (a_sq_put ptr)) (λ _. pure tt) w _ 0
        (put_pending this ptr type items w e)

  -- A call that finds the connection free.
  taken_first :
      (this ptr : Ptr) (type : ℕ) (first : Ptr) (rest : List Ptr) (w : World)
      → (w.connections this).busy ≡ 0
      → on_pending this a_sq_get (with_busy this w)
        ≡ some (first, with_pending this type rest (with_busy this w))
      → post2kvdata_tsq hash fresh this ptr w
        ≡ take_first hash fresh this ptr first (with_pending this type rest (with_busy this w))
  unfolding post2kvdata_tsq set_busy put_connection
  taken_first this ptr type first rest w free e =
      let idle : ((w.connections this).busy == 0) ≡ true = ground (arith, free) in
      rw idle (
        bind_lem (on_pending this a_sq_get) (take_first hash fresh this ptr) (with_busy this w) _
          first e)

  -- While a command of the connection is with the store threads, and the mutex of its queue is free,
  -- a message that is posted goes behind the pending ones and nothing else changes.
  pub post2kvdata_tsq_busy :
      (this ptr : Ptr) (type : ℕ) (items : List Ptr) (w : World)
      → (w.connections this).busy ≢ 0
      → (w.connections this).pending_cmd_q ≡ free_queue type items
      → post2kvdata_tsq hash fresh this ptr w
        ≡ some (tt, with_pending this type (items ++ ptr ∷ []) w)
  unfolding post2kvdata_tsq
  post2kvdata_tsq_busy this ptr type items w busy e =
      let taken : ((w.connections this).busy == 0) ≡ false = ground (arith, busy) in
      rw taken (queue_lem this ptr type items w e)

  -- What is left when a message is taken: the connection is busy and has the others pending.
  pub record Taken (this : Ptr) (type : ℕ) (rest : List Ptr) (w w' : World) : Type 0 where
    pub busy : (w'.connections this).busy ≡ 1
    pub pending : (w'.connections this).pending_cmd_q ≡ free_queue type rest
    pub conc_pending : (w'.connections this).conc_pending ≡ (w.connections this).conc_pending
    pub receiver : (w'.connections this).receiver ≡ (w.connections this).receiver
    pub others : (p : Ptr) → p ≢ this → w'.connections p ≡ w.connections p
    pub messages : w'.messages ≡ w.messages
    pub posted : w'.posted ≡ w.posted
    pub msg_pool : w'.msg_pool ≡ w.msg_pool

  Taken-once :
      (this : Ptr) (type : ℕ) (rest : List Ptr) (w : World)
      → Taken this type rest w (with_pending this type rest (with_busy this w))
  Taken-once this type rest w = record {
    busy = rw (==_refl this) refl;
    pending = rw (==_refl this) refl;
    conc_pending = rw (==_refl this) refl;
    receiver = rw (==_refl this) refl;
    others = λ p other. (let ne : (p == this) ≡ false = ground (arith, other) in rw ne refl);
    messages = refl;
    posted = refl;
    msg_pool = refl;
  }

  Taken-twice :
      (this : Ptr) (type : ℕ) (first rest : List Ptr) (w : World)
      → Taken this type rest w
          (with_pending this type rest (with_pending this type first (with_busy this w)))
  Taken-twice this type first rest w = record {
    busy = rw (==_refl this) refl;
    pending = rw (==_refl this) refl;
    conc_pending = rw (==_refl this) refl;
    receiver = rw (==_refl this) refl;
    others = λ p other. (let ne : (p == this) ≡ false = ground (arith, other) in rw ne refl);
    messages = refl;
    posted = refl;
    msg_pool = refl;
  }

  take_own :
      (this ptr : Ptr) (w : World)
      → ptr ≢ null
      → take_first hash fresh this ptr null w ≡ dispatch hash fresh this ptr w
  unfolding take_first
  take_own this ptr w real =
      let some_message : (ptr == null) ≡ false = ground (arith, real) in rw some_message refl

  take_pending :
      (this ptr first : Ptr) (type : ℕ) (items : List Ptr) (w : World)
      → ptr ≢ null
      → first ≢ null
      → (w.connections this).pending_cmd_q ≡ free_queue type items
      → take_first hash fresh this ptr first w
        ≡ dispatch hash fresh this first (with_pending this type (items ++ ptr ∷ []) w)
  unfolding take_first
  take_pending this ptr first type items w real real_first e =
      let some_message : (ptr == null) ≡ false = ground (arith, real) in
      let some_first : (first == null) ≡ false = ground (arith, real_first) in
      rw (some_message, some_first)
        (bind_lem (queue hash fresh this ptr) (λ _. dispatch hash fresh this first) w _ tt
          (queue_lem this ptr type items w e))

  -- When no command of the connection is with the store threads, the mutex of its queue is free,
  -- and neither the message nor the first of the pending ones and it is `NULL`: the message goes
  -- behind the pending ones, and the first of them all is dispatched, with the connection busy, the
  -- others pending in order, and the other connections, the messages, the store queues and the
  -- message pool as they were.
  pub post2kvdata_tsq-Taken :
      (this ptr first : Ptr) (type : ℕ) (items rest : List Ptr) (w : World)
      → ptr ≢ null
      → first ≢ null
      → (w.connections this).busy ≡ 0
      → (w.connections this).pending_cmd_q ≡ free_queue type items
      → items ++ ptr ∷ [] ≡ first ∷ rest
      → (w' : World) × (post2kvdata_tsq hash fresh this ptr w ≡ dispatch hash fresh this first w')
        × Taken this type rest w w'
  post2kvdata_tsq-Taken this ptr first type [] rest w real real_first free e order =
      let same_first : ptr ≡ first = ground (arith, order) in
      let same_rest : [] ≡ rest = ground (arith, order) in
      let pending : ((with_busy this w).connections this).pending_cmd_q ≡ free_queue type [] =
        rw (==_refl this) e in
      (
        with_pending this type [] (with_busy this w),
        taken_first this ptr type null [] w free
              (get_pending_empty this type (with_busy this w) pending)
            ∙ take_own this ptr (with_pending this type [] (with_busy this w)) real
            ∙ ap (λ p. dispatch hash fresh this p (with_pending this type [] (with_busy this w)))
                same_first,
        subst (λ r. Taken this type r w (with_pending this type [] (with_busy this w))) same_rest
            (Taken-once this type [] w),
      )
  post2kvdata_tsq-Taken this ptr first type (i ∷ items) rest w real real_first free e order =
      let same_first : i ≡ first = ground (arith, order) in
      let same_rest : items ++ ptr ∷ [] ≡ rest = ground (arith, order) in
      let pending : ((with_busy this w).connections this).pending_cmd_q
          ≡ free_queue type (i ∷ items) =
        rw (==_refl this) e in
      let taken = with_pending this type items (with_busy this w) in
      let next = with_pending this type (items ++ ptr ∷ []) taken in
      (
        next,
        taken_first this ptr type i items w free
              (get_pending this i type items (with_busy this w) pending)
            ∙ take_pending this ptr i type items taken real (λ z. real_first (sym same_first ∙ z))
                (rw (==_refl this) refl)
            ∙ ap (λ p. dispatch hash fresh this p next) same_first,
        subst (λ r. Taken this type r w next) same_rest
            (Taken-twice this type items (items ++ ptr ∷ []) w),
      )

  -- Called with `NULL` on a free connection, whose queue's mutex is free: the first pending message is
  -- taken and dispatched.
  pub post2kvdata_tsq_notified :
      (this first : Ptr) (type : ℕ) (rest : List Ptr) (w : World)
      → first ≢ null
      → (w.connections this).busy ≡ 0
      → (w.connections this).pending_cmd_q ≡ free_queue type (first ∷ rest)
      → (w' : World) × (post2kvdata_tsq hash fresh this null w ≡ dispatch hash fresh this first w')
        × Taken this type rest w w'
  unfolding take_first
  post2kvdata_tsq_notified this first type rest w real free e =
      let pending : ((with_busy this w).connections this).pending_cmd_q
          ≡ free_queue type (first ∷ rest) =
        rw (==_refl this) e in
      let taken = with_pending this type rest (with_busy this w) in
      let some_first : (first == null) ≡ false = ground (arith, real) in
      let own : take_first hash fresh this null first taken ≡ dispatch hash fresh this first taken =
        rw some_first refl in
      (
        taken,
        taken_first this null type first rest w free
              (get_pending this first type rest (with_busy this w) pending)
            ∙ own,
        Taken-once this type rest w,
      )

  -- When no command of the connection is with the store threads, the mutex of its queue is free,
  -- and the first pending entry is a `NULL`, which a notification to a busy connection leaves
  -- there: a message that is posted is dispatched before the messages that were pending behind the
  -- `NULL`, which stay.
  pub post2kvdata_tsq_overtakes :
      (this ptr : Ptr) (type : ℕ) (items : List Ptr) (w : World)
      → ptr ≢ null
      → (w.connections this).busy ≡ 0
      → (w.connections this).pending_cmd_q ≡ free_queue type (null ∷ items)
      → (w' : World) × (post2kvdata_tsq hash fresh this ptr w ≡ dispatch hash fresh this ptr w')
        × Taken this type items w w'
  post2kvdata_tsq_overtakes this ptr type items w real free e =
      let pending : ((with_busy this w).connections this).pending_cmd_q
          ≡ free_queue type (null ∷ items) =
        rw (==_refl this) e in
      (
        with_pending this type items (with_busy this w),
        taken_first this ptr type null items w free
              (get_pending this null type items (with_busy this w) pending)
            ∙ take_own this ptr (with_pending this type items (with_busy this w)) real,
        Taken-once this type items w,
      )
