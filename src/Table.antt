-- ===== src/Table.antt =====
-- ahashtable.cpp and ahashtable.h: buckets of doubly linked `KVdata` records on a heap, each bucket
-- under one of the reader-writer locks.
pub mod Memory
pub mod Chain
pub mod Replace
pub mod Set
pub mod Get
pub mod Refinement
pub mod Lookup
pub mod Locks
pub mod Roundtrip
pub mod Prefix
use Prim.Native.Nat.{bit_and}
use acached.Prelude.{
  ℕ, zero, suc, ◌+◌, ◌-◌, ◌/◌, ◌^◌, List, Bool, true, false, Option, none, some, ◌==◌, ltb,
  if◌then◌else◌, get_or, set, replicate,
}
use acached.Queue.{Ptr, null}
use Memory.{
  Heap, Command, KvData, Entry, ◌>>=◌, ◌>>◌, pure, load, store, free, strncmp, when_not_null,
}

-- `floor(log(n) / log(2.0))`, exact for the sizes in use
unfoldable pub log2_rounds : ℕ → ℕ → ℕ
log2_rounds zero n = 0
log2_rounds (suc rounds) n =
    let rest = log2_rounds rounds (n / 2) in if ltb n 2 then 0 else 1 + rest

unfoldable pub log2 : ℕ → ℕ
unfolding log2_rounds
log2 n = log2_rounds 32 n

pub data RwLock : Type 0 where
  unlocked : RwLock
  reading : ℕ → RwLock
  writing : RwLock

pub record Hashtable : Type 0 where
  pub hashsize : ℕ
  pub hashsize_power : ℕ
  pub hashmask : ℕ
  pub hash_lock_ratio : ℕ
  pub hash_lock_ratio_power : ℕ
  pub hash_lock_count : ℕ
  pub hash_lock_mask : ℕ
  pub hashtable : List Ptr
  pub hashtablelock : List RwLock

-- A ratio with a greater logarithm than the size's would shift by a negative count, which C leaves
-- undefined; the difference is 0 here.
unfoldable pub ahashtable : ℕ → ℕ → Hashtable
unfolding log2
ahashtable hashsize hash_lock_ratio =
    let hashsize_power = log2 hashsize in
    let hash_lock_ratio_power = log2 hash_lock_ratio in
    let hash_lock_count = 2 ^ (hashsize_power - hash_lock_ratio_power) in
    record {
      hashsize = hashsize;
      hashsize_power = hashsize_power;
      hashmask = hashsize - 1;
      hash_lock_ratio = hash_lock_ratio;
      hash_lock_ratio_power = hash_lock_ratio_power;
      hash_lock_count = hash_lock_count;
      hash_lock_mask = hash_lock_count - 1;
      hashtable = replicate hashsize null;
      hashtablelock = replicate hash_lock_count unlocked;
    }

unfoldable pub bucket : Hashtable → ℕ → ℕ
bucket t hashval = bit_and hashval t.hashmask

unfoldable pub lock_index : Hashtable → ℕ → ℕ
lock_index t b = bit_and b t.hash_lock_mask

-- `none`: the caller blocks
unfoldable pub wrlock : RwLock → Option RwLock
wrlock unlocked = some writing
wrlock (reading n) = none
wrlock writing = none

unfoldable pub rdlock : RwLock → Option RwLock
rdlock unlocked = some (reading 1)
rdlock (reading n) = some (reading (suc n))
rdlock writing = none

unfoldable pub unlock : RwLock → RwLock
unlock unlocked = unlocked
unlock (reading n) = if ltb n 2 then unlocked else reading (n - 1)
unlock writing = unlocked

-- The body of the match: `KVdataptr` takes the place of `tmphead`, which is freed. The result says
-- whether it was the head of the bucket.
unfoldable pub replace : Ptr → Ptr → Ptr → Command Bool
unfolding store free
replace head tmphead kv_data_ptr = do
  tmp1 ← load kv_data_ptr
  tmp2 ← load tmphead
  store kv_data_ptr (record tmp1 { prev = tmp2.prev; next = tmp2.next })
  when_not_null tmp2.prev (λ n. record n { next = kv_data_ptr })
  when_not_null tmp2.next (λ n. record n { prev = kv_data_ptr })
  free tmphead
  pure (tmphead == head)

-- The end of the chain: `KVdataptr` is linked behind `prevhead`.
unfoldable pub append : Ptr → Ptr → Command Bool
unfolding load store
append prevhead kv_data_ptr = do
  last ← load prevhead
  store prevhead (record last { next = kv_data_ptr })
  kv ← load kv_data_ptr
  store kv_data_ptr (record kv { prev = prevhead; next = null })
  pure false

-- The do-while loop of `set`, on fuel.
unfoldable pub set_loop : ℕ → Ptr → Ptr → Ptr → Command Bool
set_loop zero head tmphead kv_data_ptr = λ _. none
set_loop (suc fuel) head tmphead kv_data_ptr = do
  kv ← load kv_data_ptr
  tmp ← load tmphead
  same ← strncmp kv.bytes tmp.bytes kv.keylen
  let rest = set_loop fuel head tmp.next kv_data_ptr
  if same
      then replace head tmphead kv_data_ptr
      else (if tmp.next == null then append tmphead kv_data_ptr else rest)

-- What `set` does while it holds the lock: the new head of the bucket.
unfoldable pub set_bucket : ℕ → Ptr → Ptr → Command Ptr
set_bucket fuel head kv_data_ptr =
    if head == null
    then (do
      kv ← load kv_data_ptr
      store kv_data_ptr (record kv { next = null; prev = null })
      pure kv_data_ptr)
    else (do
      at_head ← set_loop fuel head head kv_data_ptr
      pure (if at_head then kv_data_ptr else head))

-- The do-while loop of `get`, on fuel.
unfoldable pub get_loop : ℕ → Ptr → List ℕ → ℕ → Command Ptr
get_loop zero tmphead key keylen = λ _. none
get_loop (suc fuel) tmphead key keylen = do
  tmp ← load tmphead
  same ← strncmp key tmp.bytes keylen
  let rest = get_loop fuel tmp.next key keylen
  if same then pure tmphead else (if tmp.next == null then pure null else rest)

-- What `get` does while it holds the lock; `NULL` stands for the return value -1.
unfoldable pub get_bucket : ℕ → Ptr → List ℕ → ℕ → Command Ptr
get_bucket fuel head key keylen = if head == null then pure null else get_loop fuel head key keylen

-- A result with the table and the heap that it leaves.
abbrev pub Run : Type 0 → Type 0
Run A = Hashtable → Heap → Option (A × Hashtable × Heap)

unfoldable pub set_entry : ℕ → ℕ → Ptr → Run ℕ
set_entry fuel hashval kv_data_ptr t h =
    let b = bucket t hashval in
    let l = lock_index t b in
    let head = get_or t.hashtable b null in
    elim (wrlock (get_or t.hashtablelock l unlocked)) [
      | none ↦ none
      | some held ↦ elim (set_bucket fuel head kv_data_ptr h) [
        | none ↦ none
        | some (head', h') ↦ some (
          0,
          record t {
            hashtable = set t.hashtable b head';
            hashtablelock = set (set t.hashtablelock l held) l (unlock held);
          },
          h',
        )
      ]
    ]

-- The result is the `KVdataptr` that a hit stores in the message, and `none` for -1.
unfoldable pub get_entry : ℕ → ℕ → List ℕ → ℕ → Run (Option Ptr)
get_entry fuel hashval key keylen t h =
    let b = bucket t hashval in
    let l = lock_index t b in
    let head = get_or t.hashtable b null in
    elim (rdlock (get_or t.hashtablelock l unlocked)) [
      | none ↦ none
      | some held ↦ elim (get_bucket fuel head key keylen h) [
        | none ↦ none
        | some (found, h') ↦ some (
          if found == null then none else some found,
          record t { hashtablelock = set (set t.hashtablelock l held) l (unlock held) },
          h',
        )
      ]
    ]
