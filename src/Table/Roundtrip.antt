-- ===== src/Table/Roundtrip.antt =====
-- A `get` after a `set`.
use acached.Prelude.{
  ℕ, suc, ◌≤◌, ◌≡◌, ◌≢◌, refl, sym, ap, ◌∙◌, List, [], ◌∷◌, ◌++◌, true, false, Option, none, some,
  ◌==◌, if◌then◌else◌, arith, inl, inr, length, Option-cases, Bool-cases, ==_refl, subst,
}
use Prim.Native.Nat.{bit_and}
use acached.Queue.{Ptr, null}
use acached.Table.{Hashtable, bucket, set_entry, get_entry}
use acached.Table.Memory.{Heap, KvData, Entry, same_prefix}
use acached.Table.Chain.{Cells, has, find, insert, matches, Comparable}
use acached.Table.Get.{hit_ptr}
use acached.Table.Refinement.{View, Represents, update, get_entry-find, set_entry-insert}
use acached.Table.Lookup.{find-insert_self, find-insert_other, same_prefix-append}

Comparable-insert :
    (key : List ℕ) (keylen : ℕ) (n : Ptr) (e : Entry) (xs : Cells)
    → matches key keylen e ≢ none
    → Comparable key keylen xs
    → Comparable key keylen (insert n e xs)
unfolding insert
Comparable-insert key keylen n e [] new old = (new, tt)
Comparable-insert key keylen n e ((a, x) ∷ xs) new old =
    let rest = Comparable-insert key keylen n e xs new old.1 in
    elim (Option-cases (matches e.bytes e.keylen x)) [
      | inr (true, hit) ↦ rw (hit, insert) (new, old.1)
      | inr (false, miss) ↦ rw (miss, insert) (old.0, rest)
      | inl miss ↦ rw (miss, insert) (old.0, rest)
    ]

length-insert : (n : Ptr) (e : Entry) (xs : Cells) → length (insert n e xs) ≤ suc (length xs)
unfolding insert
length-insert n e [] = omega arith
length-insert n e ((a, x) ∷ xs) = ground (arith, length-insert n e xs)

-- Only the first bytes count.
same_prefix-text :
    (text value bytes : List ℕ)
    → same_prefix (text ++ value) bytes (length text) ≡ same_prefix text bytes (length text)
unfolding same_prefix
same_prefix-text [] value bytes = refl
same_prefix-text (c ∷ text) value [] = refl
same_prefix-text (c ∷ text) value (b ∷ bytes) = rw (same_prefix-text text value bytes)

find-text :
    (text value : List ℕ) (xs : Cells)
    → find (text ++ value) (length text) xs ≡ find text (length text) xs
unfolding find
find-text text value [] = refl
find-text text value ((a, x) ∷ xs) =
    ground (arith, same_prefix-text text value x.bytes, find-text text value xs)

Comparable-text :
    (text value : List ℕ) (xs : Cells)
    → Comparable text (length text) xs
    → Comparable (text ++ value) (length text) xs
Comparable-text text value [] c = tt
Comparable-text text value ((a, x) ∷ xs) c =
    (rw (same_prefix-text text value x.bytes) c.0, Comparable-text text value xs c.1)

begins :
    (text value bytes : List ℕ)
    → bytes ≡ text ++ value
    → same_prefix text bytes (length text) ≢ none
begins text value bytes p missing =
    let e : same_prefix (text ++ value) bytes (length text) ≡ some true =
      rw p (same_prefix-append text value value) in
    absurd (ground (arith, same_prefix-text text value bytes))

-- The record of a key, found again.
find_inserted :
    (text value : List ℕ) (n : Ptr) (e : Entry) (xs : Cells)
    → e.bytes ≡ text ++ value
    → e.keylen ≡ length text
    → Comparable text (length text) xs
    → find text (length text) (insert n e xs) ≡ some (n, e)
find_inserted text value n e xs p q c =
    let self : matches e.bytes e.keylen e ≡ some true =
      rw (p, q) (same_prefix-append text value value) in
    let comp : Comparable e.bytes e.keylen xs = rw (p, q) (Comparable-text text value xs c) in
    let known = find-insert_self n e xs comp self in
    let ys = insert n e xs in
    sym (find-text text value ys)
    ∙ subst (λ k. find (text ++ value) k ys ≡ some (n, e)) q
        (subst (λ bytes. find bytes e.keylen ys ≡ some (n, e)) p known)

-- A `get` in a bucket whose chain is known.
get_entry_known :
    (t : Hashtable) (h : Heap) (view : View) (fuel hashval b : ℕ) (key : List ℕ) (keylen : ℕ)
    (xs : Cells)
    → Represents t h view
    → bucket t hashval ≡ b
    → view b ≡ xs
    → length xs ≤ fuel
    → Comparable key keylen xs
    → (t' : Hashtable) × (get_entry fuel hashval key keylen t h
        ≡ some (
          (if hit_ptr (find key keylen xs) == null
              then none
              else some (hit_ptr (find key keylen xs))),
          t',
          h,
        ))
get_entry_known t h view fuel hashval b key keylen xs r p q le comp =
    let e : view (bucket t hashval) ≡ xs = ap view p ∙ q in
    let (t', got, _) = get_entry-find t h view r fuel hashval key keylen (rw e le) (rw e comp) in
    (t', rw e at got)

bucket_mask :
    (t t' : Hashtable) (hashval : ℕ)
    → t'.hashmask ≡ t.hashmask
    → bucket t' hashval ≡ bucket t hashval
unfolding bucket
bucket_mask t t' hashval e = ap (bit_and hashval) e

update_self : (view : View) (b : ℕ) (xs : Cells) → update view b xs b ≡ xs
update_self view b xs = rw (==_refl b) refl

hit : (p : Ptr) → p ≢ null → (if p == null then none else some p) ≡ some p
hit p real = ground arith

-- The chain of any bucket after the insertion, for a key that the insertion does not concern.
elsewhere :
    (view : View) (home b n : ℕ) (e : Entry) (fuel : ℕ) (key : List ℕ) (keylen : ℕ) (xs : Cells)
    → view b ≡ xs
    → suc (length (view home)) ≤ fuel
    → length xs ≤ fuel
    → Comparable key keylen xs
    → matches key keylen e ≡ some false
    → ((a : Ptr) (x : Entry)
        → find e.bytes e.keylen (view home) ≡ some (a, x)
        → matches key keylen x ≡ some false)
    → (find key keylen (update view home (insert n e (view home)) b) ≡ find key keylen xs)
      × (length (update view home (insert n e (view home)) b) ≤ fuel)
      × Comparable key keylen (update view home (insert n e (view home)) b)
elsewhere view home b n e fuel key keylen xs p le le' comp new old = elim (Bool-cases (home == b)) [
  | inl at_home ↦
      let i : home ≡ b = ground arith in
      let q : view home ≡ xs = ap view i ∙ p in
      rw (at_home, q)
        (
          find-insert_other key keylen n e xs new (rw q at old),
          omega (arith, length-insert n e xs, ap length q),
          Comparable-insert key keylen n e xs (λ missing. absurd (ground (arith, new))) comp,
        )
  | inr away ↦ rw (away, p) (refl, le', comp)
]

module _ (t : Hashtable) (h : Heap) (view : View) (r : Represents t h view) (fuel hashval : ℕ)
    (n : Ptr) (kn : KvData) where
  abbrev home : ℕ
  home = bucket t hashval

  -- On a table that represents chains, with fuel for one record more than the bucket's chain has,
  -- and where no comparison of the key along the chain reads past an allocation: `set` of a record
  -- that stands in no chain and whose memory begins with the key returns 0, and a `get` of that key
  -- and hash value on the table and the heap that it leaves returns the record, whatever stood in
  -- the bucket before.
  pub get_entry-set_entry :
      (text value : List ℕ)
      → suc (length (view home)) ≤ fuel
      → n ≢ null
      → h n ≡ some kn
      → ((b : ℕ) → has n (view b) ≡ false)
      → kn.bytes ≡ text ++ value
      → kn.keylen ≡ length text
      → Comparable text (length text) (view home)
      → (t' : Hashtable) × (h' : Heap) × (t'' : Hashtable) × (set_entry fuel hashval n t h
          ≡ some (0, t', h'))
        × (get_entry fuel hashval text (length text) t' h' ≡ some (some n, t'', h'))
  get_entry-set_entry text value le real fresh out p q comp =
      let xs = view home in
      let comp' : Comparable kn.bytes kn.keylen xs =
        rw (p, q) (Comparable-text text value xs comp) in
      let (t', h', run, rep, mask, _) =
        set_entry-insert t h view r fuel hashval n kn (omega arith) real fresh out comp' in
      let ys = insert n kn.entry xs in
      let (t'', got) =
        get_entry_known t' h' (update view home ys) fuel hashval home text (length text) ys rep
          (bucket_mask t t' hashval mask) (update_self view home ys)
          (omega (arith, length-insert n kn.entry xs))
          (Comparable-insert text (length text) n kn.entry xs (begins text value kn.bytes p)
            comp) in
      (t', h', t'', run, (rw (find_inserted text value n kn.entry xs p q comp, hit n real) at got))

  -- On a table that represents chains, with enough fuel, and where no comparison along the two
  -- chains reads past an allocation: a `set` of a record that stands in no chain does not change
  -- what a `get` with any hash value returns, if neither the memory of the new record nor that of
  -- the record which it replaces begins with the key of the `get`.
  pub get_entry-set_entry_other :
      (other : ℕ) (key : List ℕ) (keylen : ℕ)
      → suc (length (view home)) ≤ fuel
      → length (view (bucket t other)) ≤ fuel
      → n ≢ null
      → h n ≡ some kn
      → ((b : ℕ) → has n (view b) ≡ false)
      → Comparable kn.bytes kn.keylen (view home)
      → Comparable key keylen (view (bucket t other))
      → matches key keylen kn.entry ≡ some false
      → ((a : Ptr) (x : Entry)
          → find kn.bytes kn.keylen (view home) ≡ some (a, x)
          → matches key keylen x ≡ some false)
      → (t' : Hashtable) × (h' : Heap) × (before : Hashtable) × (after : Hashtable)
        × (found : Option Ptr) × (set_entry fuel hashval n t h ≡ some (0, t', h'))
        × (get_entry fuel other key keylen t h ≡ some (found, before, h))
        × (get_entry fuel other key keylen t' h' ≡ some (found, after, h'))
  get_entry-set_entry_other other key keylen le le' real fresh out comp comp' new old =
      let xs = view home in
      let ys = insert n kn.entry xs in
      let b = bucket t other in
      let zs = update view home ys b in
      let (t', h', run, rep, mask, _) =
        set_entry-insert t h view r fuel hashval n kn (omega arith) real fresh out comp in
      let (before, got, _) = get_entry-find t h view r fuel other key keylen le' comp' in
      let (same, fits, safe) =
        elsewhere view home b n kn.entry fuel key keylen (view b) refl le le' comp' new old in
      let (after, now) =
        get_entry_known t' h' (update view home ys) fuel other b key keylen zs rep
          (bucket_mask t t' other mask) refl fits safe in
      (t', h', before, after, _, run, got, (rw same at now))
