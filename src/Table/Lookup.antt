-- ===== src/Table/Lookup.antt =====
-- What a reader of the table sees after a `set`.
use acached.Prelude.{
  ℕ, ◌≡◌, ◌≢◌, refl, List, [], ◌∷◌, ◌++◌, true, false, some, arith, inl, inr, length, Option-cases,
}
use acached.Queue.{Ptr}
use acached.Table.Memory.{Entry, same_prefix}
use acached.Table.Chain.{Cells, find, insert, matches, Comparable}

-- Bytes of a key: none is NUL.
abbrev pub IsText : List ℕ → Type 0
IsText [] = Unit {0}
IsText (c ∷ cs) = (c ≢ 0) × IsText cs

-- Memory that begins with the key's bytes compares equal to it, whatever follows.
pub same_prefix-append :
    (key rest tail : List ℕ) → same_prefix (key ++ tail) (key ++ rest) (length key) ≡ some true
unfolding same_prefix
same_prefix-append [] rest tail = refl
same_prefix-append (c ∷ key) rest tail = ground (arith, same_prefix-append key rest tail)

pub find-insert_self :
    (n : Ptr) (e : Entry) (xs : Cells)
    → Comparable e.bytes e.keylen xs
    → matches e.bytes e.keylen e ≡ some true
    → find e.bytes e.keylen (insert n e xs) ≡ some (n, e)
unfolding find insert
find-insert_self n e [] comp self = rw (self, find)
find-insert_self n e ((a, x) ∷ xs) comp self =
    ground (arith, find-insert_self n e xs, Option-cases (matches e.bytes e.keylen x))

-- The record that `insert` replaces, if there is one, and the new one are passed over by a key that
-- neither begins with.
pub find-insert_other :
    (key : List ℕ) (keylen : ℕ) (n : Ptr) (e : Entry) (xs : Cells)
    → matches key keylen e ≡ some false
    → ((a : Ptr) (x : Entry)
        → find e.bytes e.keylen xs ≡ some (a, x)
        → matches key keylen x ≡ some false)
    → find key keylen (insert n e xs) ≡ find key keylen xs
unfolding find insert
find-insert_other key keylen n e [] new old = rw (new, find)
find-insert_other key keylen n e ((a, x) ∷ xs) new old =
    elim (Option-cases (matches e.bytes e.keylen x)) [
      | inr (true, hit) ↦ ground (arith, old a x)
      | inr (false, miss) ↦
          let rest =
            find-insert_other key keylen n e xs new (λ b y i. old b y (rw (miss, find) i)) in
          ground arith
      | inl miss ↦
          let rest =
            find-insert_other key keylen n e xs new (λ b y i. old b y (rw (miss, find) i)) in
          ground arith
    ]

-- A `get` of any key that the memory of the first record begins with finds that record: also a key
-- that is only a prefix of the stored key, or the stored key with the beginning of its value.
pub find_prefix :
    (key rest tail : List ℕ) (a : Ptr) (x : Entry) (xs : Cells)
    → x.bytes ≡ key ++ rest
    → find (key ++ tail) (length key) ((a, x) ∷ xs) ≡ some (a, x)
unfolding find
find_prefix key rest tail a x xs e =
    let hit : matches (key ++ tail) (length key) x ≡ some true =
      rw e (same_prefix-append key rest tail) in
    rw (hit, find)

-- So a `set` of such a key overwrites that record, although its key is another one.
pub insert_prefix :
    (key rest tail : List ℕ) (n a : Ptr) (e x : Entry) (xs : Cells)
    → x.bytes ≡ key ++ rest
    → e.bytes ≡ key ++ tail
    → e.keylen ≡ length key
    → insert n e ((a, x) ∷ xs) ≡ (n, e) ∷ xs
unfolding insert
insert_prefix key rest tail n a e x xs p q r =
    let hit : matches e.bytes e.keylen x ≡ some true =
      rw (p, q, r) (same_prefix-append key rest tail) in
    rw (hit, insert)
