-- ===== src/Tests/Sample.antt =====
-- A table of four buckets and two locks: the records of the keys "a" and "b" stand in bucket 1.
use acached.Prelude.{
  ℕ, zero, suc, ◌<◌, ◌≡◌, refl, [], ◌∷◌, true, false, none, some, arith, get_or, ◌==◌,
  if◌then◌else◌,
}
use acached.Queue.{null}
use acached.Table.{Hashtable, unlocked}
use acached.Table.Memory.{Heap, KvData, Entry, kv_data}
use acached.Table.Chain.{Cells, has, head_ptr, Linked}
use acached.Table.Refinement.{View, Represents}

abbrev pub entry_a : Entry
entry_a = record { keylen = 1; vallen = 1; bytes = b'a' ∷ b'x' ∷ 0 ∷ [] }

abbrev pub entry_b : Entry
entry_b = record { keylen = 1; vallen = 1; bytes = b'b' ∷ b'y' ∷ 0 ∷ 0 ∷ [] }

-- Another value for the key "b", at address 7.
abbrev pub entry_new : Entry
entry_new = record { keylen = 1; vallen = 1; bytes = b'b' ∷ b'z' ∷ 0 ∷ [] }

abbrev pub record_new : KvData
record_new = kv_data entry_new null null

-- A record for the key "ax", at address 8.
abbrev pub record_longer : KvData
record_longer = kv_data record { keylen = 2; vallen = 1; bytes = b'a' ∷ b'x' ∷ b'z' ∷ [] } null null

abbrev pub chain : Cells
chain = (5, entry_a) ∷ (6, entry_b) ∷ []

abbrev pub memory : Heap
memory q =
    if q == 5
    then some (kv_data entry_a 6 null)
    else (if q == 6
        then some (kv_data entry_b null 5)
        else (if q == 7 then some record_new else (if q == 8 then some record_longer else none)))

abbrev pub table : Hashtable
table = record {
  hashsize = 4;
  hashsize_power = 2;
  hashmask = 3;
  hash_lock_ratio = 2;
  hash_lock_ratio_power = 1;
  hash_lock_count = 2;
  hash_lock_mask = 1;
  hashtable = null ∷ 5 ∷ null ∷ null ∷ [];
  hashtablelock = unlocked ∷ unlocked ∷ [];
}

abbrev pub view : View
view zero = []
view (suc zero) = chain
view (suc (suc b)) = []

one_bucket : (q b : ℕ) → has q (view b) ≡ true → b ≡ 1
unfolding has
one_bucket q zero h = absurd (ground arith)
one_bucket q (suc zero) h = refl
one_bucket q (suc (suc b)) h = absurd (ground arith)

pub absent : (b : ℕ) → has 7 (view b) ≡ false
unfolding has
absent zero = refl
absent (suc zero) = refl
absent (suc (suc b)) = refl

pub absent_longer : (b : ℕ) → has 8 (view b) ≡ false
unfolding has
absent_longer zero = refl
absent_longer (suc zero) = refl
absent_longer (suc (suc b)) = refl

locks : (l : ℕ) → get_or (unlocked ∷ unlocked ∷ []) l unlocked ≡ unlocked
locks zero = refl
locks (suc zero) = refl
locks (suc (suc l)) = refl

heads_of : (b : ℕ) → b < 4 → get_or (null ∷ 5 ∷ null ∷ null ∷ []) b null ≡ head_ptr (view b)
heads_of zero h = refl
heads_of (suc zero) h = refl
heads_of (suc (suc zero)) h = refl
heads_of (suc (suc (suc zero))) h = refl
heads_of (suc (suc (suc (suc b)))) h = absurd (omega arith)

pub chain_of : (b : ℕ) → Linked memory null (view b)
unfolding has
chain_of zero = tt
chain_of (suc zero) = (omega arith, refl, refl, (omega arith, refl, refl, tt))
chain_of (suc (suc b)) = tt

pub represents : Represents table memory view
represents = record {
  mask = omega arith;
  lock_mask = omega arith;
  free = locks;
  heads = heads_of;
  chains = chain_of;
  apart = λ q b c i j. let x = one_bucket q b i in let y = one_bucket q c j in omega arith;
}
