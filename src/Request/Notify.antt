-- ===== src/Request/Notify.antt =====
-- aConnReq.cpp and threadKVdata.cpp: the handover between the communication thread of a connection,
-- which queues a message when the connection is busy, and the store threads, which free the
-- connection and then look whether a message is queued. Each step is one atomic action.
use acached.Prelude.{
  ℕ, zero, suc, ◌+◌, ◌<◌, ◌≡◌, ◌≢◌, refl, subst, List, [], ◌∷◌, ◌++◌, Bool, true, false, ◌⊎◌, inl,
  inr, Option, none, some, arith,
}
use acached.Queue.{Ptr, null}

-- `refused` is the message between the failed compare-and-swap and `aSQput`; `working` says that a
-- store thread has a command of the connection; `releasing` counts the store threads between the
-- reset of `Busy` and the test of the queue; `notified` the messages of `CheckPendingCmdQ` in the
-- pipe.
pub record Handover : Type 0 where
  pub busy : Bool
  pub pending : List Ptr
  pub refused : Option Ptr
  pub working : Bool
  pub releasing : ℕ
  pub notified : ℕ

-- A step of a new request, of the threads alone, the look of a store thread at the queue while a
-- refused message is still to be put there, or a notification that comes to a busy connection.
pub data Kind : Type 0 where
  request own early misplaced : Kind

abbrev pub notify : List Ptr → ℕ → ℕ
notify [] n = n
notify (p ∷ ps) n = suc n

-- The communication thread is one thread: while a message is refused it does nothing else. For a
-- notification it is called with `NULL`, which it queues when the connection is busy. A `NULL` at
-- the front of the queue is removed in place of a message: a request is then handled itself, and a
-- notification only frees the connection again.
-- A command that is taken goes to a store thread: `quit`, which closes the connection, is left out.
pub data Step (s : Handover) : Kind → Handover → Type 0 where
  refuse :
      (ptr : Ptr)
      → s.refused ≡ none
      → s.busy ≡ true
      → Step s request (record s { refused = some ptr })
  put :
      (ptr : Ptr)
      → s.refused ≡ some ptr
      → ptr ≢ null
      → Step s own (record s { pending = s.pending ++ ptr ∷ []; refused = none })
  put_null :
      s.refused ≡ some null
      → Step s misplaced (record s { pending = s.pending ++ null ∷ []; refused = none })
  take :
      (ptr first : Ptr) (rest : List Ptr)
      → ptr ≢ null
      → s.refused ≡ none
      → s.busy ≡ false
      → s.pending ++ ptr ∷ [] ≡ first ∷ rest
      → first ≢ null
      → Step s request (record s { busy = true; pending = rest; working = true })
  take_past_null :
      (ptr : Ptr) (rest : List Ptr)
      → ptr ≢ null
      → s.refused ≡ none
      → s.busy ≡ false
      → s.pending ≡ null ∷ rest
      → Step s request (record s { busy = true; pending = rest; working = true })
  finish :
      s.working ≡ true
      → Step s own (record s { working = false; busy = false; releasing = suc s.releasing })
  look :
      (n : ℕ)
      → s.releasing ≡ suc n
      → s.refused ≡ none
      → Step s own (record s { releasing = n; notified = notify s.pending s.notified })
  look_early :
      (n : ℕ) (ptr : Ptr)
      → s.releasing ≡ suc n
      → s.refused ≡ some ptr
      → Step s early (record s { releasing = n; notified = notify s.pending s.notified })
  take_notified :
      (n : ℕ) (first : Ptr) (rest : List Ptr)
      → s.notified ≡ suc n
      → s.refused ≡ none
      → s.busy ≡ false
      → s.pending ≡ first ∷ rest
      → first ≢ null
      → Step s own (record s { notified = n; busy = true; pending = rest; working = true })
  drop_null :
      (n : ℕ) (rest : List Ptr)
      → s.notified ≡ suc n
      → s.refused ≡ none
      → s.busy ≡ false
      → s.pending ≡ null ∷ rest
      → Step s own (record s { notified = n; pending = rest })
  nothing_left :
      (n : ℕ)
      → s.notified ≡ suc n
      → s.refused ≡ none
      → s.busy ≡ false
      → s.pending ≡ []
      → Step s own (record s { notified = n })
  refuse_notified :
      (n : ℕ)
      → s.notified ≡ suc n
      → s.refused ≡ none
      → s.busy ≡ true
      → Step s misplaced (record s { notified = n; refused = some null })

-- Runs in which no store thread looks at the queue too early, and no notification comes to a busy
-- connection.
pub data Reach (s : Handover) : Handover → Type 0 where
  here : Reach s s
  next :
      {t u : Handover} {k : Kind} → Reach s t → Step t k u → k ≢ early → k ≢ misplaced → Reach s u

-- Whether all of these are messages.
abbrev pub Real : List Ptr → Type 0
Real [] = Unit
Real (p ∷ ps) = (p ≢ null) × Real ps

-- A queued message of a free connection has a thread that will look, or a notification on its way;
-- and so has a refused one.
pub record Watched (s : Handover) : Type 0 where
  pub real : Real s.pending
  pub queued : s.busy ≡ false → (s.pending ≡ []) ⊎ (0 < s.releasing + s.notified)
  pub refused : (ptr : Ptr) → s.refused ≡ some ptr → (s.busy ≡ true) ⊎ (0 < s.releasing)

notify-watched : (ps : List Ptr) (n m : ℕ) → (ps ≡ []) ⊎ (0 < n + notify ps m)
notify-watched [] n m = inl refl
notify-watched (p ∷ ps) n m = inr (omega arith)

Real-append : (ps : List Ptr) (p : Ptr) → Real ps → p ≢ null → Real (ps ++ p ∷ [])
Real-append [] p r real = (real, tt)
Real-append (x ∷ ps) p (h, r) real = (h, Real-append ps p r real)

no_null : (ps rest : List Ptr) → ps ≡ null ∷ rest → Real ps → ⊥
no_null ps rest e r = (subst Real e r).0 refl

Step-Watched :
    {s t : Handover} {k : Kind} → Step s k t → k ≢ early → k ≢ misplaced → Watched s → Watched t
Step-Watched {s} (refuse ptr r b) ok on_time w = record {
  real = w.real;
  queued = w.queued;
  refused = λ p e. inl b;
}
Step-Watched {s} (put ptr r real) ok on_time w = record {
  real = Real-append s.pending ptr w.real real;
  queued = λ free. (elim (w.refused ptr r) [
    | inl b ↦ absurd (ground (arith, b, free))
    | inr n ↦ inr (omega (arith, n))
  ]);
  refused = λ p e. absurd (ground (arith, e));
}
Step-Watched {s} (take ptr first rest real r b e real_first) ok on_time w = record {
  real = (subst Real e (Real-append s.pending ptr w.real real)).1;
  queued = λ free. absurd (ground (arith, free));
  refused = λ p e. inl refl;
}
Step-Watched {s} (take_past_null ptr rest real r b e) ok on_time w =
    absurd (no_null s.pending rest e w.real)
Step-Watched {s} (finish working) ok on_time w = record {
  real = w.real;
  queued = λ free. inr (omega arith);
  refused = λ p e. inr (omega arith);
}
Step-Watched {s} (look n k r) ok on_time w = record {
  real = w.real;
  queued = λ free. notify-watched s.pending n s.notified;
  refused = λ p e. absurd (ground (arith, r, e));
}
Step-Watched {s} (look_early n ptr k r) ok on_time w = absurd (ok refl)
Step-Watched {s} (take_notified n first rest k r b e real_first) ok on_time w = record {
  real = (subst Real e w.real).1;
  queued = λ free. absurd (ground (arith, free));
  refused = λ p e. inl refl;
}
Step-Watched {s} (drop_null n rest k r b e) ok on_time w = absurd (no_null s.pending rest e w.real)
Step-Watched {s} (nothing_left n k r b e) ok on_time w = record {
  real = w.real;
  queued = λ free. inl e;
  refused = w.refused;
}
Step-Watched {s} (put_null r) ok on_time w = absurd (on_time refl)
Step-Watched {s} (refuse_notified n k r b) ok on_time w = absurd (on_time refl)

-- In a state where this holds, let requests other than quit, store threads and notifications
-- interleave in any way in which no store thread looks at the queue between a request's failed test
-- of the connection and its queuing, and no notification comes to a busy connection. Then it still
-- holds: no `NULL` is queued, a queued message of a free connection has a store thread that is still
-- to look at the queue, or a notification on its way, and a refused message a busy connection or
-- such a thread.
pub Reach-Watched : {s t : Handover} → Reach s t → Watched s → Watched t
Reach-Watched here w = w
Reach-Watched (next r st ok on_time) w = Step-Watched st ok on_time (Reach-Watched r w)

-- All runs.
pub data Runs (s : Handover) : Handover → Type 0 where
  here : Runs s s
  next : {t u : Handover} {k : Kind} → Runs s t → Step t k u → Runs s u

-- A connection whose one command is with a store thread, and one that is free with a message queued.
abbrev pub at_work : Handover
at_work = record {
  busy = true;
  pending = [];
  refused = none;
  working = true;
  releasing = 0;
  notified = 0;
}

abbrev lost : Ptr → Handover
lost ptr = record {
  busy = false;
  pending = ptr ∷ [];
  refused = none;
  working = false;
  releasing = 0;
  notified = 0;
}

only_requests : {k : Kind} {t : Handover} (ptr : Ptr) → Step (lost ptr) k t → k ≡ request
only_requests ptr (refuse p r b) = refl
only_requests ptr (put p r real) = absurd (ground (arith, r))
only_requests ptr (put_null r) = absurd (ground (arith, r))
only_requests ptr (take p first rest real r b e real_first) = refl
only_requests ptr (take_past_null p rest real r b e) = refl
only_requests ptr (finish working) = absurd (ground (arith, working))
only_requests ptr (look n k r) = absurd (omega (arith, k))
only_requests ptr (look_early n p k r) = absurd (omega (arith, k))
only_requests ptr (take_notified n first rest k r b e real_first) = absurd (omega (arith, k))
only_requests ptr (drop_null n rest k r b e) = absurd (omega (arith, k))
only_requests ptr (nothing_left n k r b e) = absurd (omega (arith, k))
only_requests ptr (refuse_notified n k r b) = absurd (omega (arith, k))

put_any :
    (ptr : Ptr) {s : Handover}
    → s.refused ≡ some ptr
    → Runs at_work s
    → Runs at_work (record s { pending = s.pending ++ ptr ∷ []; refused = none })
put_any zero e r = Runs.next r (put_null e)
put_any (suc p) e r = Runs.next r (put (suc p) e (λ n. absurd (ground (arith, n))))

-- From a connection that is busy with one command and has nothing pending, a run exists in which a
-- store thread frees the connection and looks at its queue between a request's failed test and its
-- queuing; it ends with the message of the request queued on a free connection, where every step is
-- a further request of the client.
pub request_lost :
    (ptr : Ptr)
    → (s : Handover) × Runs at_work s
      × (s.busy ≡ false)
      × (s.pending ≡ ptr ∷ [])
      × ((k : Kind) (t : Handover) → Step s k t → k ≡ request)
request_lost ptr =
    let refused = Runs.next Runs.here (refuse ptr refl refl) in
    (
      lost ptr,
      put_any ptr refl (Runs.next (Runs.next refused (finish refl)) (look_early 0 ptr refl refl)),
      refl,
      refl,
      λ k t step. only_requests ptr step,
    )
