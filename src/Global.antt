-- ===== src/Global.antt =====
-- acacheSGA.h and acacheSGA.cpp: the sizes of the global area, the queues of the store threads that
-- its constructor makes, and the choice among them. The number of cores is that of `GetNumCores`.
pub mod Served
pub mod Start
use Prim.Native.Nat.{bit_and}
use acached.Prelude.{
  ℕ, ◌+◌, ◌-◌, ◌*◌, ◌/◌, ◌^◌, List, ◌==◌, leb, if◌then◌else◌, Option, none, some, replicate,
  get_elem?,
}
use acached.Table.{log2}

pub record Sga : Type 0 where
  pub num_cores : ℕ
  pub hashsize : ℕ
  pub hashsize_power : ℕ
  pub hashmask : ℕ
  pub hash_lock_ratio : ℕ
  pub hash_lock_ratio_power : ℕ
  pub hash_lock_count : ℕ
  pub hash_lock_mask : ℕ

abbrev pub acached_hash_size : ℕ
acached_hash_size = 64 * 1024

abbrev pub acached_hash_lock_ratio : ℕ
acached_hash_lock_ratio = 128

abbrev pub init_count_thread_kvdata : ℕ
init_count_thread_kvdata = 2

unfoldable pub acache_sga : ℕ → Sga
unfolding log2
acache_sga num_cores =
    let hashsize_power = log2 acached_hash_size in
    let hash_lock_ratio_power = log2 acached_hash_lock_ratio in
    let hash_lock_count = 2 ^ (hashsize_power - hash_lock_ratio_power) in
    record {
      num_cores = num_cores;
      hashsize = acached_hash_size;
      hashsize_power = hashsize_power;
      hashmask = acached_hash_size - 1;
      hash_lock_ratio = acached_hash_lock_ratio;
      hash_lock_ratio_power = hash_lock_ratio_power;
      hash_lock_count = hash_lock_count;
      hash_lock_mask = hash_lock_count - 1;
    }

-- The number of threads of each queue that the loop makes, `none` for the division by zero cores.
-- The array has as many entries as there are cores, whatever the number of queues.
unfoldable pub kvdata_queues : ℕ → Option (List ℕ)
kvdata_queues num_cores =
    let each = init_count_thread_kvdata / num_cores in
    if num_cores == 0 then none else some (replicate (each + 1) each)

abbrev pub kvdata_array : ℕ → ℕ
kvdata_array num_cores = num_cores

-- `KVdatathrindex` of `Post2KVdata`, and of the two calls in aConnReq.cpp.
unfoldable pub kvdata_index : Sga → ℕ → ℕ
kvdata_index sga hashval =
    let bucket = bit_and hashval sga.hashmask in
    if leb bucket (sga.hashsize / sga.num_cores) then 0 else 1

-- The threads that take from the queue of this index.
abbrev pub threads_of : List ℕ → ℕ → ℕ
threads_of queues index = elim (get_elem? queues index) [ none ↦ 0 | some threads ↦ threads ]
