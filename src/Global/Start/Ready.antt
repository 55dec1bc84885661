-- ===== src/Global/Start/Ready.antt =====
-- What the constructor of the global area leaves behind.
use native.Mathlib.Nat.{div-eq_of_lt}
use mathlib.Core.List.{append_assoc, append-nil}
use acached.Prelude.{
  ℕ, zero, suc, ◌+◌, ◌/◌, ◌%◌, ◌^◌, ◌<◌, ◌≡◌, refl, sym, ap, ◌∙◌, List, [], ◌∷◌, ◌++◌, false, some,
  ◌==◌, true, ltb, ◌≤◌, arith,
}
use acached.Queue.{Ptr}
use acached.Queue.Shared.{adapt_shared_q, a_sq_put}
use acached.Queue.FreeBusy.Shared.{adapt_fb_shared_q}
use acached.Pool.{init_count_global_msg, init_count_global_conn}
use acached.Pool.Conserve.{idle, put_free_all_lem}
use acached.Table.{ahashtable, log2}
use acached.Table.Memory.{Heap}
use acached.Table.Refinement.{Represents}
use acached.Table.Locks.{ahashtable-Represents}
use acached.Request.Order.{free_queue}
use acached.Global.{acache_sga}
use acached.Global.Start.{
  Thread, StoreQ, Fresh, Area, addresses, put_all, thread_type_kvdata, thread_loop,
  adapt_threaded_shared_q, kvdata_loop, acache_sga_area,
}

put_lem :
    (type : ℕ) (items : List Ptr) (p : Ptr)
    → a_sq_put p (free_queue type items) ≡ some (0, free_queue type (items ++ p ∷ []))
unfolding a_sq_put
put_lem type items p = refl

put_all_lem :
    (type : ℕ) (ptrs items : List Ptr)
    → put_all ptrs (free_queue type items) ≡ some (free_queue type (items ++ ptrs))
unfolding put_all
put_all_lem type [] items = ap (λ l. some (free_queue type l)) (sym (append-nil items))
put_all_lem type (p ∷ ptrs) items =
    put_all_lem type ptrs (items ++ p ∷ [])
    ∙ ap (λ l. some (free_queue type l)) (append_assoc items (p ∷ []) ptrs)

-- The threads of a store queue, and the store queues.
abbrev pub store_threads : Ptr → (ℕ → Ptr) → ℕ → ℕ → List (Ptr × Thread)
store_threads tsq fresh i zero = []
store_threads tsq fresh i (suc n) =
    (fresh i, record { type = thread_type_kvdata; thread_index = i % 2 ^ 16; a_tsq = tsq })
    ∷ store_threads tsq fresh (suc i) n

abbrev pub store_queues : Fresh → ℕ → ℕ → ℕ → List StoreQ
store_queues new numthreads i zero = []
store_queues new numthreads i (suc n) =
    record {
      queue = free_queue 404 [];
      threads = store_threads (new.kvdata_q i) (new.store_thread i) 0 numthreads;
    }
    ∷ store_queues new numthreads (suc i) n

abbrev pub all_threads : Fresh → ℕ → ℕ → ℕ → List Ptr
all_threads new numthreads i zero = []
all_threads new numthreads i (suc n) =
    addresses (new.store_thread i) 0 numthreads ++ all_threads new numthreads (suc i) n

thread_loop_lem :
    (type : ℕ) (tsq : Ptr) (fresh : ℕ → Ptr) (i n : ℕ) (items : List Ptr)
    → thread_loop tsq fresh i n (free_queue type items)
      ≡ some (store_threads tsq fresh i n, free_queue type (items ++ addresses fresh i n))
unfolding thread_loop addresses
thread_loop_lem type tsq fresh i zero items =
    ap (λ l. some ([], free_queue type l)) (sym (append-nil items))
thread_loop_lem type tsq fresh i (suc n) items =
    rw (thread_loop_lem type tsq fresh (suc i) n (items ++ fresh i ∷ []), append_assoc) refl

kvdata_loop_lem :
    (size : ℕ) (new : Fresh) (numthreads type kind i n : ℕ) (all tsqs : List Ptr)
    → i + n ≤ size
    → kvdata_loop size new numthreads i n (free_queue type all) (free_queue kind tsqs)
      ≡ some (
        store_queues new numthreads i n,
        (
          free_queue type (all ++ all_threads new numthreads i n),
          free_queue kind (tsqs ++ addresses new.kvdata_q i n),
        ),
      )
unfolding kvdata_loop adapt_threaded_shared_q addresses adapt_shared_q
kvdata_loop_lem size new numthreads type kind i zero all tsqs le =
    rw (append-nil all, append-nil tsqs) refl
kvdata_loop_lem size new numthreads type kind i (suc n) all tsqs le =
    let inside : ltb i size ≡ true = ground (arith, le) in
    rw
      (
        inside,
        thread_loop_lem type (new.kvdata_q i) (new.store_thread i) 0 numthreads all,
        put_lem,
        kvdata_loop_lem size new numthreads type kind (suc i) n
            (all ++ addresses (new.store_thread i) 0 numthreads) (tsqs ++ new.kvdata_q i ∷ [])
            (omega (arith, le)),
        append_assoc all (addresses (new.store_thread i) 0 numthreads)
            (all_threads new numthreads (suc i) n),
        append_assoc tsqs (new.kvdata_q i ∷ []) (addresses new.kvdata_q (suc i) n),
      )
      refl

pub record Ready (cores : ℕ) (new : Fresh) (a : Area) : Type 0 where
  pub msg_pool : a.msg_pool ≡ idle 1001 301 (addresses new.message 0 init_count_global_msg) []
  pub conn_pool : a.conn_pool ≡ idle 1002 302 (addresses new.connection 0 init_count_global_conn) []
  pub kvdata : a.kvdata ≡ store_queues new (2 / cores) 0 (2 / cores + 1)
  pub threads :
      a.threads
      ≡ free_queue 202
          (all_threads new (2 / cores) 0 (2 / cores + 1) ++ addresses new.comm_thread 0 2)
  pub table : (h : Heap) → Represents a.table h (λ _. [])

new_table :
    (cores : ℕ) (h : Heap)
    → Represents
        (ahashtable (acache_sga cores).hashsize (acache_sga cores).hash_lock_ratio_power)
        h
        (λ _. [])
unfolding acache_sga log2
new_table cores h = ahashtable-Represents _ _ h (omega arith) (omega arith)

-- With two cores or more, the array of store queues is long enough.
in_array : (cores : ℕ) → 1 < cores → 2 / cores + 1 ≤ cores
in_array zero h = absurd (omega arith)
in_array (suc zero) h = absurd (omega arith)
in_array (suc (suc zero)) h = omega arith
in_array (suc (suc (suc n))) h =
    let none_each : 2 / suc (suc (suc n)) ≡ 0 = div-eq_of_lt (omega arith) in
    omega (arith, none_each)

-- The whole area.
abbrev made : ℕ → Fresh → Area
made cores new =
    let each = 2 / cores in
    record {
      sga = acache_sga cores;
      table = ahashtable (acache_sga cores).hashsize (acache_sga cores).hash_lock_ratio_power;
      msg_pool = idle 1001 301 (addresses new.message 0 init_count_global_msg) [];
      conn_pool = idle 1002 302 (addresses new.connection 0 init_count_global_conn) [];
      lock_pool = idle 1003 303 [] [];
      shared_sq = free_queue 203 (new.threads ∷ new.command_busy ∷ []);
      freebusy_sq = free_queue 205 (new.msg_pool ∷ new.conn_pool ∷ new.lock_pool ∷ []);
      threaded_sq = free_queue 204 (addresses new.kvdata_q 0 (each + 1));
      threads = free_queue 202 (all_threads new each 0 (each + 1) ++ addresses new.comm_thread 0 2);
      kvdata = store_queues new each 0 (each + 1);
      comm = addresses new.comm_thread 0 2;
    }

-- On two cores or more, the constructor of the global area returns: the 8000 messages and 500
-- connections that it has made are free in their pools, in order, and none is in use; there are
-- 2 / cores + 1 store queues, which are empty and have 2 / cores threads each; all store threads and
-- then the two communication threads stand in the queue of all threads, in order; and the table is
-- well formed and has no entry.
pub acache_sga_area-Ready :
    (cores : ℕ) (new : Fresh)
    → 1 < cores
    → (a : Area) × (acache_sga_area cores new ≡ some a) × Ready cores new a
unfolding acache_sga_area adapt_shared_q adapt_fb_shared_q
acache_sga_area-Ready cores new some_core =
    let each = 2 / cores in
    let positive : (cores == 0) ≡ false = ground (arith, some_core) in
    (
      made cores new,
      rw
          (
            positive,
            put_all_lem 203 (new.threads ∷ new.command_busy ∷ []) [],
            put_all_lem 205 (new.msg_pool ∷ new.conn_pool ∷ new.lock_pool ∷ []) [],
            put_free_all_lem 1001 301 (addresses new.message 0 init_count_global_msg) [] [],
            put_free_all_lem 1002 302 (addresses new.connection 0 init_count_global_conn) [] [],
            kvdata_loop_lem cores new each 202 204 0 (each + 1) [] []
                (omega (arith, in_array cores some_core)),
            put_all_lem 202 (addresses new.comm_thread 0 2) (all_threads new each 0 (each + 1)),
          )
          refl,
      record {
        msg_pool = refl;
        conn_pool = refl;
        kvdata = refl;
        threads = refl;
        table = new_table cores;
      },
    )
