-- ===== src/Queue/Shared.antt =====
-- adapt/adaptSharedQ: the queue behind a mutex. `none` is a thread that blocks, because another
-- one holds the mutex.
pub mod Laws
use acached.Prelude.{
  ℕ, ◌≡◌, refl, List, [], ◌∷◌, Bool, true, false, Option, none, some, if◌then◌else◌,
}
use acached.Queue.{
  Ptr, AdaptQ, adapt_q, a_q_set_type, a_q_get_type, a_q_put, a_q_get, a_q_remove, a_q_find_ptr,
}

pub record SharedQ : Type 0 where
  pub q : AdaptQ
  pub locked : Bool

abbrev pub Blocking : Type 0 → Type 0
Blocking A = SharedQ → Option (A × SharedQ)

infixl 5 ◌>>=◌ ◌>>◌
abbrev pub ◌>>=◌ : {A B : Type 0} → Blocking A → (A → Blocking B) → Blocking B
◌>>=◌ m f s = elim (m s) [ none ↦ none | some (a, s') ↦ f a s' ]

abbrev pub ◌>>◌ : {B : Type 0} → Blocking (Unit {0}) → Blocking B → Blocking B
m >> k = m >>= λ _. k

abbrev pub pure : {A : Type 0} → A → Blocking A
pure a s = some (a, s)

unfoldable pub adapt_lock : SharedQ → Option (Unit {0} × SharedQ)
adapt_lock s = if s.locked then none else some (tt, record s { locked = true })

unfoldable pub adapt_un_lock : SharedQ → Option (Unit {0} × SharedQ)
adapt_un_lock s = some (tt, record s { locked = false })

-- the calls on the queue inside
abbrev pub update : (AdaptQ → AdaptQ) → Blocking (Unit {0})
update f s = some (tt, record s { q = f s.q })

abbrev pub modify : {A : Type 0} → (AdaptQ → A × AdaptQ) → Blocking A
modify f s = let (a, q) = f s.q in some (a, record s { q = q })

unfoldable pub adapt_shared_q : ℕ → SharedQ
unfolding adapt_q
adapt_shared_q type = record { q = adapt_q type; locked = false }

-- the type is read and written outside the mutex
unfoldable pub a_sq_set_type : ℕ → Blocking ℕ
unfolding a_q_set_type
a_sq_set_type type = modify (a_q_set_type type)

unfoldable pub a_sq_get_type : Blocking ℕ
unfolding a_q_get_type
a_sq_get_type = modify (λ q. (a_q_get_type q, q))

unfoldable pub a_sq_put : Ptr → Blocking ℕ
unfolding adapt_lock adapt_un_lock a_q_put
a_sq_put ptr = do adapt_lock; update (a_q_put ptr); adapt_un_lock; pure 0

unfoldable pub a_sq_get : Blocking Ptr
unfolding adapt_lock adapt_un_lock a_q_get
a_sq_get = do adapt_lock; ptr ← modify a_q_get; adapt_un_lock; pure ptr

unfoldable pub a_sq_remove : Ptr → Blocking ℕ
unfolding adapt_lock adapt_un_lock a_q_remove
a_sq_remove ptr = do adapt_lock; update (a_q_remove ptr); adapt_un_lock; pure 0

unfoldable pub a_sq_find_ptr : (Ptr → ℕ → Bool) → ℕ → Blocking Ptr
unfolding adapt_lock adapt_un_lock a_q_find_ptr
a_sq_find_ptr test x = do
  adapt_lock
  ptr ← modify (λ q. (a_q_find_ptr test x q, q))
  adapt_un_lock
  pure ptr

unfoldable pub empty : Blocking Bool
unfolding adapt_lock adapt_un_lock
empty = do
  adapt_lock
  ret ← modify (λ q. (elim q.items [ [] ↦ true | _ ∷ _ ↦ false ], q))
  adapt_un_lock
  pure ret
