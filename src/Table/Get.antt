-- ===== src/Table/Get.antt =====
-- `get` on one bucket.
use acached.Prelude.{
  ℕ, zero, suc, ◌≤◌, ◌<◌, ◌≡◌, refl, List, [], ◌∷◌, true, false, Option, none, some, ◌==◌,
  if◌then◌else◌, arith, inl, inr, length, Option-cases, ◌∙◌,
}
use acached.Queue.{Ptr, null}
use acached.Table.Memory.{Heap, Entry, ◌>>=◌, load_run, strncmp_run, pure}
use acached.Table.Chain.{Cells, head_ptr, Linked, find, Comparable, matches}
use acached.Table.{get_loop, get_bucket}

-- The address of a hit, `NULL` for a miss.
abbrev pub hit_ptr : Option (Ptr × Entry) → Ptr
hit_ptr none = null
hit_ptr (some (a, _)) = a

module _ (key : List ℕ) (keylen : ℕ) (h : Heap) where
  find_hit :
      (a : Ptr) (x : Entry) (xs : Cells)
      → matches key keylen x ≡ some true
      → find key keylen ((a, x) ∷ xs) ≡ some (a, x)
  unfolding find
  find_hit a x xs e = rw (e, find)

  find_miss :
      (a : Ptr) (x : Entry) (xs : Cells)
      → matches key keylen x ≡ some false
      → find key keylen ((a, x) ∷ xs) ≡ find key keylen xs
  unfolding find
  find_miss a x xs e = rw (e, find)

  module _ (fuel : ℕ) (prev a : Ptr) (x : Entry) (xs : Cells)
      (chain : Linked h prev ((a, x) ∷ xs)) where
    get_loop_hit :
        matches key keylen x ≡ some true → get_loop (suc fuel) a key keylen h ≡ some (a, h)
    unfolding get_loop
    get_loop_hit e =
        rw (load_run a h _ chain.0 chain.2, ◌>>=◌, strncmp_run key x.bytes keylen h true e)

    get_loop_miss :
        matches key keylen x ≡ some false
        → get_loop (suc fuel) a key keylen h
          ≡ (if head_ptr xs == null then pure null else get_loop fuel (head_ptr xs) key keylen) h
    unfolding get_loop
    get_loop_miss e =
        rw (load_run a h _ chain.0 chain.2, ◌>>=◌, strncmp_run key x.bytes keylen h false e)

  get_loop-find :
      (fuel : ℕ) (prev a : Ptr) (x : Entry) (xs : Cells)
      → length xs < fuel
      → Linked h prev ((a, x) ∷ xs)
      → Comparable key keylen ((a, x) ∷ xs)
      → get_loop fuel a key keylen h ≡ some (hit_ptr (find key keylen ((a, x) ∷ xs)), h)
  unfolding find
  get_loop-find zero prev a x xs lt chain comp = absurd (omega arith)
  get_loop-find (suc fuel) prev a x [] lt chain comp = elim (Option-cases (matches key keylen x)) [
    | inl e ↦ absurd (comp.0 e)
    | inr (true, e) ↦ rw (find_hit a x [] e) (get_loop_hit fuel prev a x [] chain e)
    | inr (false, e) ↦ rw (find_miss a x [] e) (get_loop_miss fuel prev a x [] chain e)
  ]
  get_loop-find (suc fuel) prev a x ((b, y) ∷ xs) lt chain comp =
      elim (Option-cases (matches key keylen x)) [
        | inl e ↦ absurd (comp.0 e)
        | inr (true, e) ↦ rw (find_hit a x _ e) (get_loop_hit fuel prev a x ((b, y) ∷ xs) chain e)
        | inr (false, e) ↦
            let next : (b == null) ≡ false = ground (arith, chain.3) in
            rw (find_miss a x _ e) (
              get_loop_miss fuel prev a x ((b, y) ∷ xs) chain e
              ∙ rw next (get_loop-find fuel a b y xs (omega arith) chain.3 comp.1))
      ]

  -- On a bucket whose chain is `xs`, `get` does not fault, ends within one round for each record of
  -- the chain, returns the first record whose memory begins with the key, and changes nothing.
  pub get_bucket-find :
      (fuel : ℕ) (prev : Ptr) (xs : Cells)
      → length xs ≤ fuel
      → Linked h prev xs
      → Comparable key keylen xs
      → get_bucket fuel (head_ptr xs) key keylen h ≡ some (hit_ptr (find key keylen xs), h)
  unfolding get_bucket find
  get_bucket-find fuel prev [] le chain comp = refl
  get_bucket-find fuel prev ((a, x) ∷ xs) le chain comp =
      let miss : (a == null) ≡ false = ground (arith, chain.0) in
      rw miss (get_loop-find fuel prev a x xs (omega arith) chain comp)
