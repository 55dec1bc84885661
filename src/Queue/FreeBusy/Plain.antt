-- ===== src/Queue/FreeBusy/Plain.antt =====
-- adapt/adaptFBQ: the pair of queues without mutexes.
use acached.Prelude.{ℕ, Bool}
use acached.Queue.{Ptr, AdaptQ, adapt_q, a_q_put, a_q_get, a_q_remove, a_q_find_ptr}

pub record AdaptFbq : Type 0 where
  pub fbq_type : ℕ
  pub free_q : AdaptQ
  pub busy_q : AdaptQ

unfoldable pub adapt_fbq : ℕ → ℕ → AdaptFbq
adapt_fbq fbq_type q_type = record {
  fbq_type = fbq_type;
  free_q = adapt_q q_type;
  busy_q = adapt_q q_type;
}

unfoldable pub a_fbq_get_free : AdaptFbq → Ptr × AdaptFbq
unfolding a_q_get
a_fbq_get_free f = let (ptr, q) = a_q_get f.free_q in (ptr, record f { free_q = q })

unfoldable pub a_fbq_remove_busy : Ptr → AdaptFbq → AdaptFbq
unfolding a_q_remove
a_fbq_remove_busy ptr f = record f { busy_q = a_q_remove ptr f.busy_q }

unfoldable pub a_fbq_put_busy : Ptr → AdaptFbq → AdaptFbq
unfolding a_q_put
a_fbq_put_busy ptr f = record f { busy_q = a_q_put ptr f.busy_q }

unfoldable pub a_fbq_put_free : Ptr → AdaptFbq → AdaptFbq
unfolding a_q_put
a_fbq_put_free ptr f = record f { free_q = a_q_put ptr f.free_q }

unfoldable pub a_fbq_find_ptr_busy : (Ptr → ℕ → Bool) → ℕ → AdaptFbq → Ptr
unfolding a_q_find_ptr
a_fbq_find_ptr_busy test x f = a_q_find_ptr test x f.busy_q
