-- ===== src/Global/Start.antt =====
-- acacheSGA.cpp: the pools, queues and threads that the constructor makes, with the constructors of
-- adapt/adaptThreadSQ.cpp, adapt/adaptThreadComm.cpp and adapt/adaptThreadedSharedQ.cpp. The
-- addresses that `new` gives are an argument. The start of the threads and their pipes are left out.
pub mod Ready
use acached.Prelude.{
  ℕ, zero, suc, ◌+◌, ◌/◌, ◌%◌, ◌^◌, List, [], ◌∷◌, Option, none, some, ◌==◌, ltb, if◌then◌else◌,
}
use acached.Queue.{Ptr}
use acached.Queue.Shared.{SharedQ, adapt_shared_q, a_sq_put}
use acached.Queue.FreeBusy.Shared.{FbSharedQ, adapt_fb_shared_q}
use acached.Pool.{init_count_global_msg, init_count_global_conn, put_free_all}
use acached.Table.{Hashtable, ahashtable}
use acached.Global.{Sga, init_count_thread_kvdata, acache_sga, kvdata_array}
use acached.Accept.{acached_thread_comm_max}

infixl 5 ◌>>=◌
abbrev ◌>>=◌ : {A B : Type 0} → Option A → (A → Option B) → Option B
none >>= f = none
some a >>= f = f a

-- The members that are read: the type, the index, and the queue of a store thread.
pub record Thread : Type 0 where
  pub type : ℕ
  pub thread_index : ℕ
  pub a_tsq : Ptr

-- A store queue: what waits in it, and its threads with their addresses.
pub record StoreQ : Type 0 where
  pub queue : SharedQ
  pub threads : List (Ptr × Thread)

-- What `new` gives, in the order of the calls of a loop.
pub record Fresh : Type 0 where
  pub threads : Ptr
  pub command_busy : Ptr
  pub msg_pool : Ptr
  pub conn_pool : Ptr
  pub lock_pool : Ptr
  pub message : ℕ → Ptr
  pub connection : ℕ → Ptr
  pub kvdata_q : ℕ → Ptr
  pub comm_thread : ℕ → Ptr
  pub store_thread : ℕ → ℕ → Ptr

-- What the constructor leaves.
pub record Area : Type 0 where
  pub sga : Sga
  pub table : Hashtable
  pub msg_pool : FbSharedQ
  pub conn_pool : FbSharedQ
  pub lock_pool : FbSharedQ
  pub shared_sq : SharedQ
  pub freebusy_sq : SharedQ
  pub threaded_sq : SharedQ
  pub threads : SharedQ
  pub kvdata : List StoreQ
  pub comm : List Ptr

-- The results of `n` calls from that of index `i` on.
unfoldable pub addresses : (ℕ → Ptr) → ℕ → ℕ → List Ptr
addresses fresh i zero = []
addresses fresh i (suc n) = fresh i ∷ addresses fresh (suc i) n

unfoldable pub put_all : List Ptr → SharedQ → Option SharedQ
unfolding a_sq_put
put_all [] q = some q
put_all (ptr ∷ ptrs) q = do (_, q) ← a_sq_put ptr q; put_all ptrs q

-- The types that the constructor gives.
abbrev q_type_kvdata : ℕ
q_type_kvdata = 404

abbrev q_type_global_threads : ℕ
q_type_global_threads = 202

abbrev q_type_global_sq : ℕ
q_type_global_sq = 203

abbrev q_type_global_tsq : ℕ
q_type_global_tsq = 204

abbrev q_type_global_fbq : ℕ
q_type_global_fbq = 205

abbrev q_type_global_msgs : ℕ
q_type_global_msgs = 301

abbrev q_type_global_conn : ℕ
q_type_global_conn = 302

abbrev q_type_global_lock : ℕ
q_type_global_lock = 303

abbrev fbsq_type_global_msgs : ℕ
fbsq_type_global_msgs = 1001

abbrev fbsq_type_global_conn : ℕ
fbsq_type_global_conn = 1002

abbrev fbsq_type_global_lock : ℕ
fbsq_type_global_lock = 1003

abbrev pub thread_type_kvdata : ℕ
thread_type_kvdata = 205

-- The loop of `adaptThreadedSharedQ`, `n` threads from index `i` on; each goes to the queue of all
-- threads, which is never `NULL`.
unfoldable pub thread_loop :
    Ptr → (ℕ → Ptr) → ℕ → ℕ → SharedQ → Option (List (Ptr × Thread) × SharedQ)
unfolding a_sq_put
thread_loop tsq fresh i zero all = some ([], all)
thread_loop tsq fresh i (suc n) all =
    let thread : Thread = record {
      type = thread_type_kvdata;
      thread_index = i % 2 ^ 16;
      a_tsq = tsq;
    } in
    do
      (_, all) ← a_sq_put (fresh i) all
      (threads, all) ← thread_loop tsq fresh (suc i) n all
      some ((fresh i, thread) ∷ threads, all)

unfoldable pub adapt_threaded_shared_q : Ptr → (ℕ → Ptr) → ℕ → SharedQ → Option (StoreQ × SharedQ)
adapt_threaded_shared_q tsq fresh numthreads all = do
  (threads, all) ← thread_loop tsq fresh 0 numthreads all
  some (record { queue = adapt_shared_q q_type_kvdata; threads = threads }, all)

-- The loop that makes the store queues, `n` of them from index `i` on, each with `numthreads`
-- threads, in an array of `size`; `none` is a write behind it.
unfoldable pub kvdata_loop :
    ℕ → Fresh → ℕ → ℕ → ℕ → SharedQ → SharedQ → Option (List StoreQ × (SharedQ × SharedQ))
kvdata_loop size new numthreads i zero all tsqs = some ([], (all, tsqs))
kvdata_loop size new numthreads i (suc n) all tsqs =
    let made : Option (List StoreQ × (SharedQ × SharedQ)) = (do
      (q, all) ← adapt_threaded_shared_q (new.kvdata_q i) (new.store_thread i) numthreads all
      (_, tsqs) ← a_sq_put (new.kvdata_q i) tsqs
      (qs, queues) ← kvdata_loop size new numthreads (suc i) n all tsqs
      some (q ∷ qs, queues)) in
    if ltb i size then made else none

-- The constructor on a number of cores; `none` for the division by zero, and where the loop of store
-- queues writes behind their array, which has as many entries as there are cores.
unfoldable pub acache_sga_area : ℕ → Fresh → Option Area
acache_sga_area cores new =
    let sga = acache_sga cores in
    let numthreads = init_count_thread_kvdata / cores in
    let made : Option Area = (do
      shared ← put_all (new.threads ∷ new.command_busy ∷ []) (adapt_shared_q q_type_global_sq)
      freebusy ←
          put_all (new.msg_pool ∷ new.conn_pool ∷ new.lock_pool ∷ [])
            (adapt_shared_q q_type_global_fbq)
      (_, msgs) ←
          put_free_all (addresses new.message 0 init_count_global_msg)
            (adapt_fb_shared_q fbsq_type_global_msgs q_type_global_msgs)
      (_, conns) ←
          put_free_all (addresses new.connection 0 init_count_global_conn)
            (adapt_fb_shared_q fbsq_type_global_conn q_type_global_conn)
      (kvdata, (all, tsqs)) ←
          kvdata_loop (kvdata_array cores) new numthreads 0 (numthreads + 1)
            (adapt_shared_q q_type_global_threads) (adapt_shared_q q_type_global_tsq)
      let comm = addresses new.comm_thread 0 acached_thread_comm_max
      all ← put_all comm all
      some record {
        sga = sga;
        table = ahashtable sga.hashsize sga.hash_lock_ratio_power;
        msg_pool = msgs;
        conn_pool = conns;
        lock_pool = adapt_fb_shared_q fbsq_type_global_lock q_type_global_lock;
        shared_sq = shared;
        freebusy_sq = freebusy;
        threaded_sq = tsqs;
        threads = all;
        kvdata = kvdata;
        comm = comm;
      }) in
    if cores == 0 then none else made
