-- ===== src/Queue/FreeBusy/Shared.antt =====
-- adapt/adaptFBSharedQ: the free and the busy queue, each behind a mutex of its own; and the two
-- empty overrides of adapt/adaptFBPSharedQ.
use acached.Prelude.{ℕ, Bool, Option, none, some}
use acached.Queue.{Ptr}
use acached.Queue.Shared.{
  SharedQ, Blocking, adapt_shared_q, a_sq_put, a_sq_get, a_sq_remove, a_sq_find_ptr,
}

pub record FbSharedQ : Type 0 where
  pub fbsq_type : ℕ
  pub free_q : SharedQ
  pub busy_q : SharedQ

abbrev pub FbBlocking : Type 0 → Type 0
FbBlocking A = FbSharedQ → Option (A × FbSharedQ)

infixl 5 ◌>>=◌ ◌>>◌
abbrev pub ◌>>=◌ : {A B : Type 0} → FbBlocking A → (A → FbBlocking B) → FbBlocking B
◌>>=◌ m f s = elim (m s) [ none ↦ none | some (a, s') ↦ f a s' ]

abbrev pub ◌>>◌ : {A B : Type 0} → FbBlocking A → FbBlocking B → FbBlocking B
m >> k = m >>= λ _. k

abbrev pub pure : {A : Type 0} → A → FbBlocking A
pure a s = some (a, s)

-- a call on one of the two queues
abbrev pub on_free : {A : Type 0} → Blocking A → FbBlocking A
on_free m f = elim (m f.free_q) [ none ↦ none | some (a, q) ↦ some (a, record f { free_q = q }) ]

abbrev pub on_busy : {A : Type 0} → Blocking A → FbBlocking A
on_busy m f = elim (m f.busy_q) [ none ↦ none | some (a, q) ↦ some (a, record f { busy_q = q }) ]

unfoldable pub adapt_fb_shared_q : ℕ → ℕ → FbSharedQ
unfolding adapt_shared_q
adapt_fb_shared_q fbsq_type sq_type = record {
  fbsq_type = fbsq_type;
  free_q = adapt_shared_q sq_type;
  busy_q = adapt_shared_q sq_type;
}

unfoldable pub a_fbsq_get_free : FbBlocking Ptr
unfolding a_sq_get
a_fbsq_get_free = on_free a_sq_get

unfoldable pub a_fbsq_remove_busy : Ptr → FbBlocking ℕ
unfolding a_sq_remove
a_fbsq_remove_busy ptr = on_busy (a_sq_remove ptr)

unfoldable pub a_fbsq_put_busy : Ptr → FbBlocking ℕ
unfolding a_sq_put
a_fbsq_put_busy ptr = on_busy (a_sq_put ptr)

unfoldable pub a_fbsq_put_free : Ptr → FbBlocking ℕ
unfolding a_sq_put
a_fbsq_put_free ptr = on_free (a_sq_put ptr)

unfoldable pub a_fbsq_find_ptr_busy : (Ptr → ℕ → Bool) → ℕ → FbBlocking Ptr
unfolding a_sq_find_ptr
a_fbsq_find_ptr_busy test x = on_busy (a_sq_find_ptr test x)

-- adaptFBPSharedQ: threads that are always busy are not queued
unfoldable pub a_fbspq_remove_busy : Ptr → FbSharedQ → ℕ × FbSharedQ
a_fbspq_remove_busy ptr f = (0, f)

unfoldable pub a_fbspq_put_busy : Ptr → FbSharedQ → ℕ × FbSharedQ
a_fbspq_put_busy ptr f = (0, f)
