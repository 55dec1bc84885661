-- ===== src/Queue/FreeBusy/Laws.antt =====
-- The pair of shared queues against the pair of plain ones.
use acached.Prelude.{ℕ, ◌≡◌, refl, Bool, false, some}
use acached.Queue.{Ptr}
use acached.Queue.Shared.{a_sq_get, a_sq_put, a_sq_remove, a_sq_find_ptr}
use acached.Queue.FreeBusy.Plain.{
  AdaptFbq, a_fbq_get_free, a_fbq_remove_busy, a_fbq_put_busy, a_fbq_put_free, a_fbq_find_ptr_busy,
}
use acached.Queue.FreeBusy.Shared.{
  FbSharedQ, FbBlocking, a_fbsq_get_free, a_fbsq_remove_busy, a_fbsq_put_busy, a_fbsq_put_free,
  a_fbsq_find_ptr_busy,
}

pub data FbCall : Type 0 where
  get_free : FbCall
  remove_busy : Ptr → FbCall
  put_busy : Ptr → FbCall
  put_free : Ptr → FbCall
  find_busy : (Ptr → ℕ → Bool) → ℕ → FbCall

abbrev pub run_shared : FbCall → FbBlocking ℕ
run_shared get_free = a_fbsq_get_free
run_shared (remove_busy ptr) = a_fbsq_remove_busy ptr
run_shared (put_busy ptr) = a_fbsq_put_busy ptr
run_shared (put_free ptr) = a_fbsq_put_free ptr
run_shared (find_busy test x) = a_fbsq_find_ptr_busy test x

abbrev pub run_plain : FbCall → AdaptFbq → ℕ × AdaptFbq
run_plain get_free f = a_fbq_get_free f
run_plain (remove_busy ptr) f = (0, a_fbq_remove_busy ptr f)
run_plain (put_busy ptr) f = (0, a_fbq_put_busy ptr f)
run_plain (put_free ptr) f = (0, a_fbq_put_free ptr f)
run_plain (find_busy test x) f = (a_fbq_find_ptr_busy test x f, f)

-- The shared pair that holds the same pointers, with the two mutexes as given.
abbrev pub shared : Bool → Bool → AdaptFbq → FbSharedQ
shared free_locked busy_locked f = record {
  fbsq_type = f.fbq_type;
  free_q = record { q = f.free_q; locked = free_locked };
  busy_q = record { q = f.busy_q; locked = busy_locked };
}

-- Each call on a pair of shared queues whose mutexes are free does what the same call does on the
-- plain pair, returns the same, and leaves the mutexes free.
pub run_shared-shared :
    (c : FbCall) (f : AdaptFbq)
    → run_shared c (shared false false f)
      ≡ some ((run_plain c f).0, shared false false (run_plain c f).1)
unfolding a_fbsq_get_free a_fbsq_remove_busy a_fbsq_put_busy a_fbsq_put_free a_fbsq_find_ptr_busy
    a_fbq_get_free a_fbq_remove_busy a_fbq_put_busy a_fbq_put_free a_fbq_find_ptr_busy a_sq_get
    a_sq_put a_sq_remove a_sq_find_ptr
run_shared-shared get_free f = refl
run_shared-shared (remove_busy ptr) f = refl
run_shared-shared (put_busy ptr) f = refl
run_shared-shared (put_free ptr) f = refl
run_shared-shared (find_busy test x) f = refl
