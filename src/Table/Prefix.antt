-- ===== src/Table/Prefix.antt =====
-- A comparison takes the length of the new key alone, so that a key hits every record whose memory
-- begins with it: the record of a longer key, and that of a shorter one followed by its value.
use acached.Prelude.{
  ℕ, ◌≤◌, ◌≡◌, ◌≢◌, ap, ◌∙◌, List, ◌∷◌, ◌++◌, true, false, none, some, ◌==◌, arith, length, subst,
}
use acached.Queue.{Ptr, null}
use acached.Table.{Hashtable, bucket, set_entry, get_entry}
use acached.Table.Memory.{Heap, KvData, Entry}
use acached.Table.Chain.{Cells, has, Linked, find, insert, Comparable}
use acached.Table.Refinement.{View, Represents, get_entry-find, set_entry-insert}
use acached.Table.Lookup.{find_prefix, insert_prefix}

first_has : (a : Ptr) (x : Entry) (xs : Cells) → has a ((a, x) ∷ xs) ≡ true
unfolding has
first_has a x xs = ground arith

replaced :
    (a n : Ptr) (e : Entry) (xs : Cells) → a ≢ n → has a xs ≡ false → has a ((n, e) ∷ xs) ≡ false
unfolding has
replaced a n e xs ne out = ground arith

first-Linked :
    (h : Heap) (a : Ptr) (x : Entry) (xs cells : Cells)
    → cells ≡ (a, x) ∷ xs
    → Linked h null cells
    → (a ≢ null) × (has a xs ≡ false)
first-Linked h a x xs cells e l = let m = subst (Linked h null) e l in (m.0, m.1)

module _ (t : Hashtable) (h : Heap) (view : View) (r : Represents t h view) (fuel hashval : ℕ)
    (key rest tail : List ℕ) (a : Ptr) (x : Entry) (xs : Cells) where
  abbrev home : ℕ
  home = bucket t hashval

  -- On a table that represents chains, with fuel for the bucket's chain, and where no comparison
  -- along it reads past an allocation: a `get` of any key that the memory of the bucket's first
  -- record begins with returns that record, also where the record's own key is longer or shorter.
  pub get_entry_prefix :
      view home ≡ (a, x) ∷ xs
      → x.bytes ≡ key ++ rest
      → length (view home) ≤ fuel
      → Comparable (key ++ tail) (length key) (view home)
      → (t' : Hashtable) × (get_entry fuel hashval (key ++ tail) (length key) t h
          ≡ some (some a, t', h))
  get_entry_prefix e p le comp =
      let (real, _) = first-Linked h a x xs (view home) e (r.chains home) in
      let (t', got, _) =
        get_entry-find t h view r fuel hashval (key ++ tail) (length key) le comp in
      let found : find (key ++ tail) (length key) (view home) ≡ some (a, x) =
        ap (find (key ++ tail) (length key)) e ∙ find_prefix key rest tail a x xs p in
      let miss : (a == null) ≡ false = ground arith in (t', (rw (found, miss) at got))

  -- On a table that represents chains, with fuel for the bucket's chain, and where no comparison
  -- along it reads past an allocation: a `set` of a record that stands in no chain, with any key
  -- that the memory of the bucket's first record begins with, returns 0 and frees that record, also
  -- where the record's own key is longer or shorter.
  pub set_entry_prefix :
      (n : Ptr) (kn : KvData)
      → view home ≡ (a, x) ∷ xs
      → x.bytes ≡ key ++ rest
      → kn.bytes ≡ key ++ tail
      → kn.keylen ≡ length key
      → length (view home) ≤ fuel
      → n ≢ null
      → h n ≡ some kn
      → ((b : ℕ) → has n (view b) ≡ false)
      → Comparable kn.bytes kn.keylen (view home)
      → (t' : Hashtable) × (h' : Heap) × (set_entry fuel hashval n t h ≡ some (0, t', h'))
        × (h' a ≡ none)
  set_entry_prefix n kn e p q k le real fresh out comp =
      let (_, last) = first-Linked h a x xs (view home) e (r.chains home) in
      let (t', h', run, _, _, freed) =
        set_entry-insert t h view r fuel hashval n kn le real fresh out comp in
      let grown : insert n kn.entry (view home) ≡ (n, kn.entry) ∷ xs =
        ap (insert n kn.entry) e ∙ insert_prefix key rest tail n a kn.entry x xs p q k in
      let first : has a (view home) ≡ true = ap (has a) e ∙ first_has a x xs in
      let other : a ≢ n =
        λ same. absurd (ground (arith, ap (λ b. has b (view home)) same, out home)) in
      let gone : has a (insert n kn.entry (view home)) ≡ false =
        ap (has a) grown ∙ replaced a n kn.entry xs other last in
      (t', h', run, freed a first gone)
