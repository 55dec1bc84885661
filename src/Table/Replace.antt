-- ===== src/Table/Replace.antt =====
-- The two ways in which `set` ends: a record takes another one's place, or goes to the end.
use mathlib.Core.Path.{fun_ext}
use mathlib.Core.Option
use acached.Prelude.{
  ◌≡◌, ◌≢◌, refl, [], ◌∷◌, true, false, Option, none, some, ◌==◌, if◌then◌else◌, arith, ◌⊎◌, inl,
  inr, ap, subst,
}
use acached.Queue.{Ptr, null}
use acached.Table.Memory.{
  Heap, KvData, Entry, kv_data, write, store, free, when_not_null, ◌>>=◌, load_run,
}
use acached.Table.Chain.{Cells, head_ptr, has, Linked, Linked-frame}
use acached.Table.{replace}

-- A write through a pointer that may be null.
unfoldable pub relink : Heap → Ptr → (KvData → KvData) → Heap
relink h p f q = if q == p then (if p == null then h q else Option.map f (h q)) else h q

-- A pointer that is null or points to a record.
abbrev pub Holds : Heap → Ptr → Type 0
Holds h p = (p ≡ null) ⊎ ((k : KvData) × (p ≢ null) × (h p ≡ some k))

abbrev Result : Type 0
Result = Option (Unit {0} × Heap)

same_heap : (g k : Heap) → ((q : Ptr) → g q ≡ k q) → Path Result (some (tt, g)) (some (tt, k))
same_heap g k e = ap (λ (m : Heap). let r : Result = some (tt, m) in r) (fun_ext e)

when_not_null_lem :
    (p : Ptr) (f : KvData → KvData) (h : Heap)
    → Holds h p
    → when_not_null p f h ≡ some (tt, relink h p f)
unfolding when_not_null relink store write
when_not_null_lem p f h (inl e) = rw e (same_heap h _ (λ q. ground arith))
when_not_null_lem p f h (inr (k, real, e)) =
    let miss : (p == null) ≡ false = ground arith in
    rw (miss, load_run p h k real e, ◌>>=◌) (same_heap _ _ (λ q. ground arith))

-- What the call leaves: `ys` in the place of `xs`, the record before linked to it, and all else as
-- it was.
pub record Leaves (h g : Heap) (prev n : Ptr) (xs ys : Cells) : Type 0 where
  pub linked : Linked g prev ys
  pub before :
      (k : KvData) → prev ≢ null → h prev ≡ some k → g prev ≡ some (record k { next = head_ptr ys })
  pub outside : (q : Ptr) → (q == n) ≡ false → (q == prev) ≡ false → has q xs ≡ false → g q ≡ h q
  pub freed : (q : Ptr) → has q xs ≡ true → has q ys ≡ false → g q ≡ none

-- The heap after `replace`.
abbrev pub replaced : Heap → KvData → Ptr → Entry → Ptr → Ptr → Ptr → Heap
replaced h kn n e a prev next =
    write
      (relink
        (relink (write h n (some (kv_data kn.entry next prev))) prev (λ k. record k { next = n }))
        next (λ k. record k { prev = n }))
      a none

module _ (h : Heap) (prev n a : Ptr) (old : Entry) (kn : KvData) (xs : Cells) (n_real : n ≢ null)
    (fresh : h n ≡ some kn) (out : has n ((a, old) ∷ xs) ≡ false) (apart : n ≢ prev)
    (chain : Linked h prev ((a, old) ∷ xs)) (before : Holds h prev)
    (prev_out : has prev ((a, old) ∷ xs) ≡ false) where
  prev_miss : (prev == n) ≡ false
  prev_miss = ground arith

  Holds-prev : (e : Entry) (p q : Ptr) → Holds (write h n (some (kv_data e p q))) prev
  unfolding write
  Holds-prev e p q = elim before [
    | inl e ↦ inl e
    | inr (k, real, e) ↦ inr (k, real, rw prev_miss e)
  ]

  -- the record after the one that is replaced is not among those written before
  Holds-next :
      (ys : Cells)
      → xs ≡ ys
      → Holds
          (relink
            (write h n (some (kv_data kn.entry (head_ptr xs) prev)))
            prev
            (λ k. record k { next = n }))
          (head_ptr xs)
  unfolding write relink has
  Holds-next [] e = inl (rw e)
  Holds-next ((b, x) ∷ ys) e =
      let c = subst (λ zs. Linked h a zs) e chain.3 in
      let o = subst (λ zs. has n ((a, old) ∷ zs) ≡ false) e out in
      let po = subst (λ zs. has prev ((a, old) ∷ zs) ≡ false) e prev_out in
      rw e (inr (kv_data x (head_ptr ys) a, c.0, ground arith))

  pub replace_run :
      (head : Ptr)
      → replace head a n h ≡ some (a == head, replaced h kn n kn.entry a prev (head_ptr xs))
  unfolding replace store free
  replace_run head = rw (
    load_run n h kn n_real fresh,
    ◌>>=◌,
    load_run a h _ chain.0 chain.2,
    when_not_null_lem prev (λ k. record k { next = n }) _ (Holds-prev kn.entry (head_ptr xs) prev),
    when_not_null_lem (head_ptr xs) (λ k. record k { prev = n }) _ (Holds-next xs refl),
  )

  abbrev pub left : Heap
  left = replaced h kn n kn.entry a prev (head_ptr xs)

  Linked-rest : (ys : Cells) → xs ≡ ys → Linked left n ys
  unfolding write relink has
  Linked-rest [] e = tt
  Linked-rest ((b, x) ∷ ys) e =
      let c = subst (λ zs. Linked h a zs) e chain.3 in
      let o = subst (λ zs. has n ((a, old) ∷ zs) ≡ false) e out in
      let po = subst (λ zs. has prev ((a, old) ∷ zs) ≡ false) e prev_out in
      let ao = subst (λ zs. has a zs ≡ false) e chain.1 in
      let next : head_ptr xs ≡ b = rw e in
      (c.0, c.1, ground arith, Linked-frame h left b ys (λ q i. ground arith) c.3)

  pub replace_Leaves : Leaves h left prev n ((a, old) ∷ xs) ((n, kn.entry) ∷ xs)
  unfolding write relink has
  replace_Leaves = record {
    linked = (n_real, ground arith, ground arith, Linked-rest xs refl);
    before = λ k real e. ground arith;
    outside = λ q i j o. ground arith;
    freed = λ q i o. ground arith;
  }
