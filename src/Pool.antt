-- ===== src/Pool.antt =====
-- acacheSGA.cpp: the pools of messages and of connections. Objects are taken from the free queue
-- of a pair of queues and stand in the busy queue while they are in use.
pub mod Conserve
pub mod Interleave
use acached.Prelude.{ℕ, zero, suc, ◌+◌, List, [], ◌∷◌, Option, none, some, ◌==◌, if◌then◌else◌}
use acached.Queue.{Ptr, null}
use acached.Queue.FreeBusy.Shared.{
  FbSharedQ, FbBlocking, ◌>>=◌, ◌>>◌, pure, a_fbsq_get_free, a_fbsq_put_busy, a_fbsq_remove_busy,
  a_fbsq_put_free,
}

abbrev pub init_count_global_msg : ℕ
init_count_global_msg = 8000

abbrev pub init_count_global_conn : ℕ
init_count_global_conn = 500

unfoldable pub a_sga_allocate : FbBlocking Ptr
unfolding a_fbsq_get_free a_fbsq_put_busy
a_sga_allocate = do ptr ← a_fbsq_get_free; _ ← a_fbsq_put_busy ptr; pure ptr

unfoldable pub a_sga_release : Ptr → FbBlocking Ptr
unfolding a_fbsq_remove_busy a_fbsq_put_free
a_sga_release ptr = do _ ← a_fbsq_remove_busy ptr; _ ← a_fbsq_put_free ptr; pure null

-- The two pools are values of `FbSharedQ`; a call goes to the one that it names.
unfoldable pub a_conn_allocate : FbBlocking Ptr
unfolding a_sga_allocate
a_conn_allocate = a_sga_allocate

unfoldable pub a_conn_release : Ptr → FbBlocking Ptr
unfolding a_sga_release
a_conn_release ptr = a_sga_release ptr

-- `for (i = 0; i < INIT_COUNT_GLOBAL_MSG; i++)`: `fresh` are the addresses that `new aMsg()` gives.
unfoldable pub put_free_all : List Ptr → FbBlocking (Unit {0})
unfolding a_fbsq_put_free
put_free_all [] = pure tt
put_free_all (ptr ∷ ptrs) = do _ ← a_fbsq_put_free ptr; put_free_all ptrs

-- The jump back to `abc` on fuel; each round that finds no message takes one batch of `fresh`.
unfoldable pub a_msg_allocate : ℕ → (ℕ → List Ptr) → FbBlocking Ptr
a_msg_allocate zero fresh = λ _. none
a_msg_allocate (suc fuel) fresh =
    let again = a_msg_allocate fuel (λ n. fresh (suc n)) in
    do ptr ← a_sga_allocate; if ptr == null then (put_free_all (fresh 0) >> again) else pure ptr

unfoldable pub a_msg_release : Ptr → FbBlocking Ptr
unfolding a_sga_release
a_msg_release ptr = a_sga_release ptr
