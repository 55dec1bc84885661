-- ===== src/Table/Refinement.antt =====
-- The whole table: an array of chains, and what `set` and `get` do to it.
use acached.Prelude.{
  ℕ, zero, suc, ◌≤◌, ◌<◌, ◌≡◌, ◌≢◌, refl, List, [], ◌∷◌, true, false, none, some, ◌==◌,
  if◌then◌else◌, arith, inl, inr, length, Bool-cases, get_or, set, get_or-set_self, get_or-set_ne,
  length-set,
}
use acached.Prelude.Bits.{bit_and-le_right}
use acached.Queue.{Ptr, null}
use acached.Table.Memory.{Heap, KvData, Entry}
use acached.Table.Chain.{Cells, head_ptr, has, Linked, Linked-frame, insert, find, Comparable}
use acached.Table.Set.{set_bucket-insert, has-insert, has-null}
use acached.Table.Get.{get_bucket-find, hit_ptr}
use acached.Table.{
  Hashtable, RwLock, unlocked, writing, bucket, lock_index, set_entry, get_entry, wrlock, rdlock,
  unlock,
}

-- The abstract table: the chain of each bucket.
abbrev pub View : Type 0
View = ℕ → Cells

-- The arrays have the size that the masks fit, no lock is held, and each bucket's pointer leads to
-- the records of its chain; no record stands in two chains.
pub record Represents (t : Hashtable) (h : Heap) (view : View) : Type 0 where
  pub mask : t.hashmask < length t.hashtable
  pub lock_mask : t.hash_lock_mask < length t.hashtablelock
  pub free : (l : ℕ) → get_or t.hashtablelock l unlocked ≡ unlocked
  pub heads : (b : ℕ) → b < length t.hashtable → get_or t.hashtable b null ≡ head_ptr (view b)
  pub chains : (b : ℕ) → Linked h null (view b)
  pub apart : (q b c : ℕ) → has q (view b) ≡ true → has q (view c) ≡ true → b ≡ c

pub bucket-lt :
    (t : Hashtable) (h : Heap) (view : View) (hashval : ℕ)
    → Represents t h view
    → bucket t hashval < length t.hashtable
unfolding bucket
bucket-lt t h view hashval r = omega (arith, bit_and-le_right hashval t.hashmask, r.mask)

pub lock_index-lt :
    (t : Hashtable) (h : Heap) (view : View) (b : ℕ)
    → Represents t h view
    → lock_index t b < length t.hashtablelock
unfolding lock_index
lock_index-lt t h view b r = omega (arith, bit_and-le_right b t.hash_lock_mask, r.lock_mask)

abbrev pub update : View → ℕ → Cells → View
update view b xs c = if b == c then xs else view c

has_ne : (p q : Ptr) (xs : Cells) → has p xs ≡ false → has q xs ≡ true → (q == p) ≡ false
has_ne p q xs o i = elim (Bool-cases (q == p)) [
  | inl e ↦ let same : q ≡ p = ground arith in cc
  | inr e ↦ e
]

-- A record of the grown chain is in no other bucket.
apart_step :
    (view : View) (home n : ℕ) (e : Entry)
    → ((q b c : ℕ) → has q (view b) ≡ true → has q (view c) ≡ true → b ≡ c)
    → ((b : ℕ) → has n (view b) ≡ false)
    → (q c : ℕ) → has q (insert n e (view home)) ≡ true
    → has q (view c) ≡ true
    → home ≡ c
apart_step view home n e apart out q c i j =
    let miss = has_ne n q (view c) (out c) j in
    elim (Bool-cases (has q (view home))) [
      | inl old ↦ apart q home c old j
      | inr new ↦ let gone = has-insert q n e (view home) miss new in cc
    ]

-- A lock that was taken and released is free again, and the others are as they were.
set-set_unlocked :
    (ls : List RwLock) (i j : ℕ) (x : RwLock)
    → ((l : ℕ) → get_or ls l unlocked ≡ unlocked)
    → get_or (set (set ls i x) i unlocked) j unlocked ≡ unlocked
set-set_unlocked [] i j x e = refl
set-set_unlocked (l ∷ ls) zero zero x e = refl
set-set_unlocked (l ∷ ls) zero (suc j) x e = e (suc j)
set-set_unlocked (l ∷ ls) (suc i) zero x e = e 0
set-set_unlocked (l ∷ ls) (suc i) (suc j) x e = set-set_unlocked ls i j x (λ k. e (suc k))

module _ (t : Hashtable) (h : Heap) (view : View) (r : Represents t h view) (fuel hashval : ℕ) where
  abbrev home : ℕ
  home = bucket t hashval

  -- On a table that represents chains, with fuel for the bucket's chain, and where no comparison
  -- along it reads past an allocation: `get` neither blocks nor faults, and returns the first
  -- record of the bucket's chain whose memory begins with the key, or -1; the heap is the same, the
  -- table stands for the same chains as before, and the lock is free again.
  pub get_entry-find :
      (key : List ℕ) (keylen : ℕ)
      → length (view home) ≤ fuel
      → Comparable key keylen (view home)
      → (t' : Hashtable) × (get_entry fuel hashval key keylen t h
          ≡ some (
            (if hit_ptr (find key keylen (view home)) == null
                then none
                else some (hit_ptr (find key keylen (view home)))),
            t',
            h,
          ))
        × Represents t' h view
  unfolding get_entry rdlock unlock
  get_entry-find key keylen le comp =
      let l = lock_index t home in
      let lt = bucket-lt t h view hashval r in
      (
        record t { hashtablelock = set (set t.hashtablelock l (RwLock.reading 1)) l unlocked },
        rw (
          r.free l,
          get_entry,
          r.heads home lt,
          get_bucket-find key keylen h fuel null (view home) le (r.chains home) comp,
        ),
        record {
          mask = r.mask;
          lock_mask = rw (length-set, length-set) r.lock_mask;
          free = λ j. set-set_unlocked t.hashtablelock l j _ r.free;
          heads = r.heads;
          chains = r.chains;
          apart = r.apart;
        },
      )

  -- On a table that represents chains, with fuel for the bucket's chain, and where no comparison
  -- along it reads past an allocation: `set` of a record that stands in no chain neither blocks nor
  -- faults, and returns 0. The bucket's chain is then the insertion: the record takes the place of
  -- the first whose memory begins with the key, which is freed, or goes to the end. All other
  -- buckets keep their chains, the mask is the same, and the lock is free again.
  pub set_entry-insert :
      (n : Ptr) (kn : KvData)
      → length (view home) ≤ fuel
      → n ≢ null
      → h n ≡ some kn
      → ((b : ℕ) → has n (view b) ≡ false)
      → Comparable kn.bytes kn.keylen (view home)
      → (t' : Hashtable) × (h' : Heap) × (set_entry fuel hashval n t h ≡ some (0, t', h'))
        × Represents t' h' (update view home (insert n kn.entry (view home)))
        × (t'.hashmask ≡ t.hashmask)
        × ((q : Ptr)
            → has q (view home) ≡ true
            → has q (insert n kn.entry (view home)) ≡ false
            → h' q ≡ none)
  unfolding set_entry wrlock unlock
  set_entry-insert n kn le real fresh out comp =
      let l = lock_index t home in
      let xs = view home in
      let ys = insert n kn.entry xs in
      let lt = bucket-lt t h view hashval r in
      let (g, run, kept) =
        set_bucket-insert fuel h n kn xs le real fresh (out home) (r.chains home) comp in
      (
        record t {
          hashtable = set t.hashtable home (head_ptr ys);
          hashtablelock = set (set t.hashtablelock l writing) l unlocked;
        },
        g,
        rw (r.free l, set_entry, r.heads home lt, run),
        record {
          mask = rw length-set r.mask;
          lock_mask = rw (length-set, length-set) r.lock_mask;
          free = λ j. set-set_unlocked t.hashtablelock l j _ r.free;
          heads = λ b b_lt. elim (Bool-cases (home == b)) [
            | inl e ↦
                let i : home ≡ b = ground arith in
                rw (e, ← i) (get_or-set_self t.hashtable home _ null lt)
            | inr e ↦
                rw (e, get_or-set_ne t.hashtable home b (head_ptr ys) null (ground arith))
                  (r.heads b (rw length-set at b_lt))
          ];
          chains = λ b. elim (Bool-cases (home == b)) [
            | inl e ↦ rw e kept.linked
            | inr e ↦ rw e (
                Linked-frame h g null (view b)
                  (λ q i.
                    kept.outside q
                      (has_ne null q (view b) (has-null h null (view b) (r.chains b)) i)
                      (has_ne n q (view b) (out b) i)
                      (elim (Bool-cases (has q xs)) [
                        | inl old ↦ absurd (ground (arith, r.apart q home b old i))
                        | inr new ↦ new
                      ]))
                  (r.chains b))
          ];
          apart = λ q b c i j. ground (
            arith,
            r.apart q b c,
            apart_step view home n kn.entry r.apart out q b,
            apart_step view home n kn.entry r.apart out q c,
          );
        },
        refl,
        kept.freed,
      )
