-- ===== src/Queue/Threaded.antt =====
-- adapt/adaptThreadedSharedQ: a shared queue whose readers sleep on a condition variable while it is
-- empty. A step is what a thread does while it holds the mutex.
use acached.Prelude.{ℕ, suc, ◌+◌, ◌<◌, ◌≡◌, ◌≢◌, sym, ap, ◌∙◌, List, [], ◌∷◌, ◌++◌, arith}
use mathlib.Core.List.{append_assoc}
use acached.Queue.{Ptr, null, AdaptQ, a_q_put, a_q_get}

-- The numbers of the readers that are in `pthread_cond_wait`, that are to take the mutex in
-- `aTSQgetMsg`, and that are elsewhere; and all messages that were put and that were taken.
pub record Threaded : Type 0 where
  pub q : AdaptQ
  pub waiting : ℕ
  pub awake : ℕ
  pub elsewhere : ℕ
  pub put : List Ptr
  pub taken : List Ptr

-- `pthread_cond_signal` wakes a waiting reader when there is one.
pub data Step (s : Threaded) : Threaded → Type 0 where
  -- `aTSQputMsg` with a reader waiting, and with none
  put_signal :
      (ptr : Ptr) (n : ℕ)
      → s.waiting ≡ suc n
      → Step s (record s {
        q = a_q_put ptr s.q;
        waiting = n;
        awake = suc s.awake;
        put = s.put ++ ptr ∷ [];
      })
  put_alone :
      (ptr : Ptr)
      → s.waiting ≡ 0
      → Step s (record s { q = a_q_put ptr s.q; put = s.put ++ ptr ∷ [] })
  -- `aTSQgetMsg` is called
  call : (n : ℕ) → s.elsewhere ≡ suc n → Step s (record s { elsewhere = n; awake = suc s.awake })
  -- its loop finds the queue empty, or takes the front and returns; a `NULL` is taken and not returned
  sleep :
      (n : ℕ)
      → s.awake ≡ suc n
      → s.q.items ≡ []
      → Step s (record s { awake = n; waiting = suc s.waiting })
  take :
      (n : ℕ) (ptr : Ptr) (q : AdaptQ)
      → s.awake ≡ suc n
      → s.q.items ≢ []
      → a_q_get s.q ≡ (ptr, q)
      → ptr ≢ null
      → Step s
          (record s { awake = n; elsewhere = suc s.elsewhere; q = q; taken = s.taken ++ ptr ∷ [] })
  take_null :
      (q : AdaptQ)
      → 0 < s.awake
      → s.q.items ≢ []
      → a_q_get s.q ≡ (null, q)
      → Step s (record s { q = q; taken = s.taken ++ null ∷ [] })
  -- a wake-up without a signal
  spurious : (n : ℕ) → s.waiting ≡ suc n → Step s (record s { waiting = n; awake = suc s.awake })

pub data Reach (s : Threaded) : Threaded → Type 0 where
  here : Reach s s
  next : {t u : Threaded} → Reach s t → Step t u → Reach s u

-- The messages are taken in the order in which they were put, and when all readers wait there is
-- none. There is a reader.
pub record Served (s : Threaded) : Type 0 where
  pub order : s.put ≡ s.taken ++ s.q.items
  pub awake : s.awake + s.elsewhere ≡ 0 → s.q.items ≡ []
  pub readers : 0 < s.waiting + s.awake + s.elsewhere

front :
    (q q' : AdaptQ) (ptr : Ptr) → q.items ≢ [] → a_q_get q ≡ (ptr, q') → q.items ≡ ptr ∷ q'.items
unfolding a_q_get
front q q' ptr some_item e = ground (arith, e, some_item)

order_put :
    (put taken items : List Ptr) (ptr : Ptr)
    → put ≡ taken ++ items
    → put ++ ptr ∷ [] ≡ taken ++ (items ++ ptr ∷ [])
order_put put taken items ptr e = ap (λ l. l ++ ptr ∷ []) e ∙ append_assoc taken items (ptr ∷ [])

order_take :
    (put taken items rest : List Ptr) (ptr : Ptr)
    → put ≡ taken ++ items
    → items ≡ ptr ∷ rest
    → put ≡ (taken ++ ptr ∷ []) ++ rest
order_take put taken items rest ptr e f =
    e ∙ ap (◌++◌ taken) f ∙ sym (append_assoc taken (ptr ∷ []) rest)

Step-Served : {s t : Threaded} → Step s t → Served s → Served t
unfolding a_q_put
Step-Served {s} (put_signal ptr n k) w = record {
  order = order_put s.put s.taken s.q.items ptr w.order;
  awake = λ z. absurd (omega (arith, z));
  readers = omega arith;
}
Step-Served {s} (put_alone ptr k) w = record {
  order = order_put s.put s.taken s.q.items ptr w.order;
  awake = λ z. absurd (omega (arith, z, k, w.readers));
  readers = w.readers;
}
Step-Served {s} (call n k) w = record {
  order = w.order;
  awake = λ z. absurd (omega (arith, z));
  readers = omega arith;
}
Step-Served {s} (sleep n k e) w = record { order = w.order; awake = λ z. e; readers = omega arith }
Step-Served {s} (take n ptr q k some_item e real) w = record {
  order = order_take s.put s.taken s.q.items q.items ptr w.order (front s.q q ptr some_item e);
  awake = λ z. absurd (omega (arith, z));
  readers = omega arith;
}
Step-Served {s} (take_null q k some_item e) w = record {
  order = order_take s.put s.taken s.q.items q.items null w.order (front s.q q null some_item e);
  awake = λ z. absurd (omega (arith, z, k));
  readers = w.readers;
}
Step-Served {s} (spurious n k) w = record {
  order = w.order;
  awake = λ z. absurd (omega (arith, z));
  readers = omega arith;
}

-- If the messages put are those taken and then those queued, in order, none is queued while all
-- readers wait, and there is a reader, then this holds again after any steps, in whatever order the
-- threads take the mutex and are woken, with or without a signal.
pub Reach-Served : {s t : Threaded} → Reach s t → Served s → Served t
Reach-Served here w = w
Reach-Served (next r st) w = Step-Served st (Reach-Served r w)
