-- ===== src/Table/Chain.antt =====
-- What a bucket's records stand for: the entries in order, each with its address.
use acached.Prelude.{
  ℕ, ◌≡◌, ◌≢◌, refl, List, [], ◌∷◌, Bool, true, false, ◌||◌, Option, none, some, ◌==◌, arith,
}
use acached.Queue.{Ptr, null}
use acached.Table.Memory.{Heap, Entry, kv_data, same_prefix}

abbrev pub Cells : Type 0
Cells = List (Ptr × Entry)

abbrev pub head_ptr : Cells → Ptr
head_ptr [] = null
head_ptr ((a, _) ∷ _) = a

unfoldable pub has : Ptr → Cells → Bool
has q [] = false
has q ((a, _) ∷ xs) = (q == a) || has q xs

-- The records of `xs` stand at distinct addresses, linked in both directions; the first has `prev`
-- for its predecessor.
abbrev pub Linked : Heap → Ptr → Cells → Type 0
Linked h prev [] = Unit {0}
Linked h prev ((a, e) ∷ xs) =
    (a ≢ null) × (has a xs ≡ false) × (h a ≡ some (kv_data e (head_ptr xs) prev)) × Linked h a xs

-- A change elsewhere leaves a chain as it is.
pub Linked-frame :
    (h g : Heap) (prev : Ptr) (xs : Cells)
    → ((q : Ptr) → has q xs ≡ true → g q ≡ h q)
    → Linked h prev xs
    → Linked g prev xs
unfolding has
Linked-frame h g prev [] same l = tt
Linked-frame h g prev ((a, e) ∷ xs) same l =
    (l.0, l.1, ground (arith, same a), Linked-frame h g a xs (λ q i. same q (ground arith)) l.3)

-- The comparison of both loops: the entry's memory begins with the key.
abbrev pub matches : List ℕ → ℕ → Entry → Option Bool
matches key keylen e = same_prefix key e.bytes keylen

-- No comparison along the chain reads past the end of an allocation.
abbrev pub Comparable : List ℕ → ℕ → Cells → Type 0
Comparable key keylen [] = Unit {0}
Comparable key keylen ((a, e) ∷ xs) = (matches key keylen e ≢ none) × Comparable key keylen xs

-- The first hit.
unfoldable pub find : List ℕ → ℕ → Cells → Option (Ptr × Entry)
find key keylen [] = none
find key keylen ((a, e) ∷ xs) = elim (matches key keylen e) [
  | some true ↦ some (a, e)
  | _ ↦ find key keylen xs
]

-- The new record takes the place of the first hit, or goes to the end.
unfoldable pub insert : Ptr → Entry → Cells → Cells
insert n e [] = (n, e) ∷ []
insert n e ((a, x) ∷ xs) =
    let rest = insert n e xs in
    elim (matches e.bytes e.keylen x) [ some true ↦ (n, e) ∷ xs | _ ↦ (a, x) ∷ rest ]

pub insert-nil : (n : Ptr) (e : Entry) → insert n e [] ≡ (n, e) ∷ []
unfolding insert
insert-nil n e = refl

module _ (n a : Ptr) (e x : Entry) (xs : Cells) where
  pub insert_hit : matches e.bytes e.keylen x ≡ some true → insert n e ((a, x) ∷ xs) ≡ (n, e) ∷ xs
  unfolding insert
  insert_hit h = rw (h, insert)

  pub insert_miss :
      matches e.bytes e.keylen x ≡ some false → insert n e ((a, x) ∷ xs) ≡ (a, x) ∷ insert n e xs
  unfolding insert
  insert_miss h = rw (h, insert)
