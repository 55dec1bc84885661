-- ===== src/Table/Locks.antt =====
-- The constructor: the arrays, the masks and the locks of a new table.
use native.Mathlib.Nat.{one-le-pow}
use acached.Prelude.{
  ℕ, zero, suc, ◌-◌, ◌≤◌, ◌<◌, ◌≡◌, refl, [], arith, replicate, length-replicate, get_or,
}
use acached.Queue.{null}
use acached.Table.Memory.{Heap}
use acached.Table.{ahashtable, log2, unlocked}
use acached.Table.Refinement.{Represents}
use acached.Table.Chain.{has}

get_or-replicate {ℓ} : {A : Type ℓ} (n i : ℕ) (a : A) → get_or (replicate n a) i a ≡ a
get_or-replicate zero i a = refl
get_or-replicate (suc n) zero a = refl
get_or-replicate (suc n) (suc i) a = get_or-replicate n i a

-- A new table of a positive size, the lock ratio being at most that by their logarithms, represents
-- empty chains: its masks stay within its arrays, and
-- no lock is held.
pub ahashtable-Represents :
    (hashsize hash_lock_ratio : ℕ) (h : Heap)
    → 0 < hashsize
    → log2 hash_lock_ratio ≤ log2 hashsize
    → Represents (ahashtable hashsize hash_lock_ratio) h (λ _. [])
unfolding ahashtable has
ahashtable-Represents hashsize ratio h pos le = record {
  mask = rw length-replicate (omega arith);
  lock_mask = rw length-replicate (omega (arith, one-le-pow (log2 hashsize - log2 ratio) 2));
  free = λ l. get_or-replicate _ l unlocked;
  heads = λ b lt. get_or-replicate hashsize b null;
  chains = λ b. tt;
  apart = λ q b c i j. cc;
}
