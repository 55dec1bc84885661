-- ===== src/Queue/Shared/Laws.antt =====
-- Every call on a shared queue is one critical section.
use acached.Prelude.{
  ℕ, ◌≡◌, refl, [], ◌∷◌, Bool, true, false, Option, none, some, if◌then◌else◌, arith, Bool-cases,
  inl, inr,
}
use acached.Queue.{Ptr, AdaptQ, a_q_put, a_q_get, a_q_remove, a_q_find_ptr}
use acached.Queue.Shared.{SharedQ, Blocking, a_sq_put, a_sq_get, a_sq_remove, a_sq_find_ptr, empty}

pub data Call : Type 0 where
  put : Ptr → Call
  get : Call
  remove : Ptr → Call
  find : (Ptr → ℕ → Bool) → ℕ → Call
  is_empty : Call

-- What the call returns; a Boolean as 1 or 0.
abbrev pub run : Call → Blocking ℕ
run (put ptr) s = a_sq_put ptr s
run get s = a_sq_get s
run (remove ptr) s = a_sq_remove ptr s
run (find test x) s = a_sq_find_ptr test x s
run is_empty s = elim (empty s) [ none ↦ none | some (b, s') ↦ some (if b then 1 else 0, s') ]

-- The queue alone, with no mutex.
abbrev pub sequential : Call → AdaptQ → ℕ × AdaptQ
sequential (put ptr) q = (0, a_q_put ptr q)
sequential get q = a_q_get q
sequential (remove ptr) q = (0, a_q_remove ptr q)
sequential (find test x) q = (a_q_find_ptr test x q, q)
sequential is_empty q = elim q.items [ [] ↦ (1, q) | _ ∷ _ ↦ (0, q) ]

abbrev shared : AdaptQ → Bool → SharedQ
shared q locked = record { q = q; locked = locked }

abbrev after : Call → AdaptQ → Option (ℕ × SharedQ)
after c q = some ((sequential c q).0, shared (sequential c q).1 false)

held : (c : Call) (q : AdaptQ) → run c (shared q true) ≡ none
unfolding a_sq_put a_sq_get a_sq_remove a_sq_find_ptr empty
held (put ptr) q = refl
held get q = refl
held (remove ptr) q = refl
held (find test x) q = refl
held is_empty q = refl

free : (c : Call) (q : AdaptQ) → run c (shared q false) ≡ after c q
unfolding a_sq_put a_sq_get a_sq_remove a_sq_find_ptr empty
free (put ptr) q = refl
free get q = refl
free (remove ptr) q = refl
free (find test x) q = refl
free is_empty q = ground arith

-- Each call blocks exactly when the mutex is held. On a free mutex it returns what the bare queue
-- returns, leaves the bare queue's contents and gives the mutex back.
pub run-sequential :
    (c : Call) (s : SharedQ)
    → run c s ≡ (
        if s.locked
        then none
        else some ((sequential c s.q).0, record { q = (sequential c s.q).1; locked = false }))
run-sequential c s = elim (Bool-cases s.locked) [
  | inl e ↦ rw e (held c s.q)
  | inr e ↦ rw e (free c s.q)
]
