-- ===== src/Tests/Table.antt =====
-- The theorems on `set` and `get` at the sample table; hash value 5 leads to bucket 1.
use acached.Prelude.{◌≡◌, ◌≢◌, refl, [], ◌∷◌, Bool, true, false, Option, none, some, arith}
use acached.Queue.{Ptr}
use acached.Table.{Hashtable, bucket, set_entry, get_entry}
use acached.Table.Memory.{Heap, Entry, same_prefix}
use acached.Table.Chain.{find, insert, has}
use acached.Table.Refinement.{Represents, update, get_entry-find, set_entry-insert}
use acached.Table.Roundtrip.{get_entry-set_entry, get_entry-set_entry_other}
use acached.Table.Prefix.{get_entry_prefix}
use acached.Tests.Sample.{
  entry_a, entry_b, entry_new, record_new, chain, memory, table, view, absent, represents,
}

pub found_none : (b : Bool) → some b ≢ none
found_none b e = absurd (ground arith)

get_entry-set_entry_example :
    (t' : Hashtable) × (h' : Heap) × (t'' : Hashtable) × (set_entry 3 5 7 table memory
      ≡ some (0, t', h'))
    × (get_entry 3 5 (b'b' ∷ []) 1 t' h' ≡ some (some 7, t'', h'))
unfolding bucket same_prefix
get_entry-set_entry_example =
    get_entry-set_entry table memory view represents 3 5 7 record_new (b'b' ∷ []) (b'z' ∷ 0 ∷ [])
      (omega arith) (omega arith) refl absent refl refl (found_none false, (found_none true, tt))

other_key :
    (a : Ptr) (x : Entry)
    → find entry_new.bytes 1 chain ≡ some (a, x)
    → same_prefix (b'a' ∷ []) x.bytes 1 ≡ some false
unfolding same_prefix find
other_key a x e = ground arith

get_entry-set_entry_other_example :
    (t' : Hashtable) × (h' : Heap) × (before : Hashtable) × (after : Hashtable) × (found : Option
      Ptr)
    × (set_entry 3 5 7 table memory ≡ some (0, t', h'))
    × (get_entry 3 5 (b'a' ∷ []) 1 table memory ≡ some (found, before, memory))
    × (get_entry 3 5 (b'a' ∷ []) 1 t' h' ≡ some (found, after, h'))
unfolding bucket same_prefix find
get_entry-set_entry_other_example =
    get_entry-set_entry_other table memory view represents 3 5 7 record_new 5 (b'a' ∷ []) 1
      (omega arith) (omega arith) (omega arith) refl absent
      (found_none false, (found_none true, tt)) (found_none true, (found_none false, tt)) refl
      other_key

set_entry-insert_example :
    (t' : Hashtable) × (h' : Heap) × (set_entry 3 5 7 table memory ≡ some (0, t', h'))
    × Represents t' h' (update view 1 (insert 7 entry_new chain))
    × (t'.hashmask ≡ 3)
    × ((q : Ptr) → has q chain ≡ true → has q (insert 7 entry_new chain) ≡ false → h' q ≡ none)
unfolding bucket same_prefix
set_entry-insert_example =
    set_entry-insert table memory view represents 3 5 7 record_new (omega arith) (omega arith) refl
      absent (found_none false, (found_none true, tt))

get_entry-find_example :
    (t' : Hashtable) × (get_entry 3 5 (b'b' ∷ []) 1 table memory ≡ some (some 6, t', memory))
    × Represents t' memory view
unfolding bucket same_prefix find
get_entry-find_example =
    get_entry-find table memory view represents 3 5 (b'b' ∷ []) 1 (omega arith)
      (found_none false, (found_none true, tt))

-- The key "ax" hits the record of the key "a" with the value "x".
get_entry_prefix_example :
    (t' : Hashtable) × (get_entry 3 5 (b'a' ∷ b'x' ∷ []) 2 table memory ≡ some (some 5, t', memory))
unfolding bucket same_prefix
get_entry_prefix_example =
    get_entry_prefix table memory view represents 3 5 (b'a' ∷ b'x' ∷ []) (0 ∷ []) [] 5 entry_a
      ((6, entry_b) ∷ []) refl refl (omega arith) (found_none true, (found_none false, tt))
