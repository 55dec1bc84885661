-- ===== src/Global/Served.antt =====
-- Which store queues have a thread.
use Prim.Native.Nat.{bit_and}
use acached.Prelude.{
  ℕ, zero, suc, ◌/◌, ◌≤◌, ◌<◌, ◌≡◌, refl, sym, ap, ◌∙◌, subst, List, [], ◌∷◌, some, true, false,
  ◌==◌, leb, replicate, length, arith, Bool-cases, inl, inr,
}
use native.Mathlib.Nat.{div-eq_of_lt}
use mathlib.Core.Option.{some-injective}
use acached.Prelude.Bits.{bit_and-le_right}
use acached.Global.{
  acache_sga, init_count_thread_kvdata, kvdata_queues, kvdata_array, kvdata_index, threads_of,
}

pub record Served (cores hashval : ℕ) (queues : List ℕ) : Type 0 where
  pub made : kvdata_index (acache_sga cores) hashval < length queues
  pub inside : kvdata_index (acache_sga cores) hashval < kvdata_array cores
  pub threads : 0 < threads_of queues (kvdata_index (acache_sga cores) hashval)

one_core : (hashval : ℕ) → kvdata_index (acache_sga 1) hashval ≡ 0
unfolding kvdata_index acache_sga
one_core hashval =
    let small : leb (bit_and hashval 65535) 65536 ≡ true =
      ground (arith, bit_and-le_right hashval 65535) in
    rw small refl

two_cores : (hashval : ℕ) → Served 2 hashval (1 ∷ 1 ∷ [])
unfolding kvdata_index
two_cores hashval =
    let sga = acache_sga 2 in
    elim (Bool-cases (leb (bit_and hashval sga.hashmask) (sga.hashsize / sga.num_cores))) [
      | inl low ↦ record {
        made = rw low (omega arith);
        inside = rw low (omega arith);
        threads = rw low (omega arith);
      }
      | inr high ↦ record {
        made = rw high (omega arith);
        inside = rw high (omega arith);
        threads = rw high (omega arith);
      }
    ]

-- With one core or two, every hash value goes to an index that is inside the array, for which a
-- queue is made, and that has a thread.
pub kvdata_index-Served :
    (cores hashval : ℕ) (queues : List ℕ)
    → 0 < cores
    → cores ≤ 2
    → kvdata_queues cores ≡ some queues
    → Served cores hashval queues
unfolding kvdata_queues
kvdata_index-Served zero hashval queues lo hi e = absurd (omega arith)
kvdata_index-Served (suc zero) hashval queues lo hi e =
    let zero_index = one_core hashval in
    subst (Served 1 hashval) (some-injective _ _ e) record {
      made = rw zero_index (omega arith);
      inside = rw zero_index (omega arith);
      threads = rw zero_index (omega arith);
    }
kvdata_index-Served (suc (suc zero)) hashval queues lo hi e =
    subst (Served 2 hashval) (some-injective _ _ e) (two_cores hashval)
kvdata_index-Served (suc (suc (suc n))) hashval queues lo hi e = absurd (omega arith)

threads-none : (n index : ℕ) → threads_of (replicate n 0) index ≡ 0
threads-none zero index = refl
threads-none (suc n) zero = refl
threads-none (suc n) (suc index) = threads-none n index

-- With three cores or more, the queue to which a hash value goes has no thread, if it is made at
-- all.
pub kvdata_index_unserved :
    (cores hashval : ℕ) (queues : List ℕ)
    → 3 ≤ cores
    → kvdata_queues cores ≡ some queues
    → threads_of queues (kvdata_index (acache_sga cores) hashval) ≡ 0
unfolding kvdata_queues
kvdata_index_unserved cores hashval queues lo e =
    let index = kvdata_index (acache_sga cores) hashval in
    let none_each : init_count_thread_kvdata / cores ≡ 0 = div-eq_of_lt (omega arith) in
    let some_cores : (cores == 0) ≡ false = ground (arith, lo) in
    let all = some-injective _ _ (rw (some_cores, none_each) at e) in
    ap (λ qs. threads_of qs index) (sym all) ∙ threads-none 1 index
