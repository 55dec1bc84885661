-- ===== src/Queue.antt =====
-- adapt/adaptQ: a queue of pointers over `std::list<void *>`, as a list of addresses. The layers
-- above it are the children: `Shared` (one mutex) and `FreeBusy` (a free and a busy queue).
pub mod Shared
pub mod FreeBusy
pub mod Threaded
use acached.Prelude.{
  ℕ, ◌≡◌, List, [], ◌∷◌, ◌++◌, Bool, Option, none, some, ◌==◌, if◌then◌else◌, not,
}

abbrev pub Ptr : Type 0
Ptr = ℕ

abbrev pub null : Ptr
null = 0

pub record AdaptQ : Type 0 where
  pub type : ℕ
  pub items : List Ptr

pub adapt_q : ℕ → AdaptQ
adapt_q type = record { type = type; items = [] }

pub a_q_set_type : ℕ → AdaptQ → ℕ × AdaptQ
a_q_set_type type q = (type, record q { type = type })

pub a_q_get_type : AdaptQ → ℕ
a_q_get_type q = q.type

-- `push_back`
unfoldable pub a_q_put : Ptr → AdaptQ → AdaptQ
a_q_put ptr q = record q { items = q.items ++ ptr ∷ [] }

-- `NULL` if the list is empty, else the front, popped
unfoldable pub a_q_get : AdaptQ → Ptr × AdaptQ
a_q_get q = elim q.items [ [] ↦ (null, q) | ptr ∷ rest ↦ (ptr, record q { items = rest }) ]

-- `std::list::remove` drops every element that is equal to the pointer
unfoldable pub remove : Ptr → List Ptr → List Ptr
remove ptr [] = []
remove ptr (x ∷ xs) = let rest = remove ptr xs in if x == ptr then rest else x ∷ rest

unfoldable pub a_q_remove : Ptr → AdaptQ → AdaptQ
unfolding remove
a_q_remove ptr q = record q { items = remove ptr q.items }

-- the first pointer that the test accepts, else `NULL`
unfoldable pub find_ptr : (Ptr → ℕ → Bool) → ℕ → List Ptr → Ptr
find_ptr test x [] = null
find_ptr test x (ptr ∷ rest) = if test ptr x then ptr else find_ptr test x rest

unfoldable pub a_q_find_ptr : (Ptr → ℕ → Bool) → ℕ → AdaptQ → Ptr
unfolding find_ptr
a_q_find_ptr test x q = find_ptr test x q.items
