-- ===== src/Pool/Interleave.antt =====
-- Threads that share one pool. Each call of the queues is one step, since it holds the mutex; an
-- allocation and a release are two steps each, and other threads run in between.
use acached.Prelude.{
  ℕ, ◌+◌, ◌≤◌, ◌<◌, ◌≡◌, ◌≢◌, refl, List, [], ◌∷◌, ◌++◌, arith, ◌∙◌, if◌then◌else◌, ◌==◌, ◌⊎◌, inl,
  inr, subst, Bool-cases,
}
use acached.Queue.{Ptr, null, AdaptQ, a_q_get, a_q_put, a_q_remove}
use acached.Pool.Conserve.{count, count-append, count-remove}

-- `taking` are the objects that threads have from the free queue and not yet put into the busy
-- queue; `returning` those removed from the busy queue and not yet put back.
pub record Shop : Type 0 where
  pub free : AdaptQ
  pub busy : AdaptQ
  pub taking : List Ptr
  pub returning : List Ptr

-- The places where an object stands.
unfoldable pub places : Ptr → Shop → ℕ
places p s = count p s.free.items + count p s.busy.items + count p s.taking + count p s.returning

-- A step of the program's threads, or the removal of an object that is not in use.
pub data Kind : Type 0 where
  due stray : Kind

-- One critical section of some thread. An allocation from an empty free queue gets `NULL` and puts
-- that into the busy queue; that of a message then puts new objects into the free queue, one at a
-- time, and tries again.
pub data Step (s : Shop) : Kind → Shop → Type 0 where
  take :
      (p : Ptr) (q : AdaptQ)
      → a_q_get s.free ≡ (p, q)
      → Step s due (record s { free = q; taking = p ∷ s.taking })
  publish :
      (p : Ptr) (before after : List Ptr)
      → s.taking ≡ before ++ p ∷ after
      → Step s due (record s { busy = a_q_put p s.busy; taking = before ++ after })
  refill : (p : Ptr) → p ≢ null → places p s ≡ 0 → Step s due (record s { free = a_q_put p s.free })
  retire :
      (p : Ptr)
      → 0 < count p s.busy.items
      → Step s due (record s { busy = a_q_remove p s.busy; returning = p ∷ s.returning })
  retire_unused :
      (p : Ptr)
      → count p s.busy.items ≡ 0
      → Step s stray (record s { busy = a_q_remove p s.busy; returning = p ∷ s.returning })
  give_back :
      (p : Ptr) (before after : List Ptr)
      → s.returning ≡ before ++ p ∷ after
      → Step s due (record s { free = a_q_put p s.free; returning = before ++ after })

-- Runs in which a thread releases only what is in use.
pub data Reach (s : Shop) : Shop → Type 0 where
  here : Reach s s
  next : {t u : Shop} {k : Kind} → Reach s t → Step t k u → k ≢ stray → Reach s u

count-a_q_get :
    (p x : Ptr) (f q : AdaptQ)
    → a_q_get f ≡ (x, q)
    → p ≢ null
    → count p f.items ≡ (if x == p then 1 else 0) + count p q.items
unfolding a_q_get count
count-a_q_get p x f q e real = ground arith

count_middle :
    (p x : Ptr) (xs before after : List Ptr)
    → xs ≡ before ++ x ∷ after
    → count p xs ≡ (if x == p then 1 else 0) + count p (before ++ after)
unfolding count
count_middle p x xs before after e = rw e (grind (arith, count-append))

count-a_q_put :
    (p x : Ptr) (q : AdaptQ)
    → count p (a_q_put x q).items ≡ (if x == p then 1 else 0) + count p q.items
unfolding count a_q_put
count-a_q_put p x q = ground (arith, count-append p q.items (x ∷ []))

count-a_q_remove :
    (p x : Ptr) (q : AdaptQ)
    → count p (a_q_remove x q).items ≡ (if x == p then 0 else count p q.items)
unfolding a_q_remove
count-a_q_remove p x q = count-remove p x q.items

abbrev pub Distinct : Shop → Type 0
Distinct s = (p : Ptr) → p ≢ null → places p s ≤ 1

-- What a step makes of the places of an object: only a new object gets one.
Kept : Ptr → Shop → Shop → Type 0
Kept p s t = (places p t ≡ places p s) ⊎ ((places p s ≡ 0) × (places p t ≡ 1))

places-refill :
    (p x : Ptr) (s : Shop) → places x s ≡ 0 → Kept p s (record s { free = a_q_put x s.free })
unfolding Kept places
places-refill p x s new =
    let put = count-a_q_put p x s.free in
    elim (Bool-cases (x == p)) [
      | inr other ↦
          let no : ◌≡◌ {A = ℕ} (if x == p then 1 else 0) 0 = rw other refl in
          inl (omega (arith, put, no))
      | inl same ↦
          let one : ◌≡◌ {A = ℕ} (if x == p then 1 else 0) 1 = rw same refl in
          let is : x ≡ p = ground (arith, same) in
          let none_yet = subst (λ y. places y s ≡ 0) is new in
          (inr (none_yet, omega (arith, put, one, none_yet)))
    ]

Step-Kept :
    {s t : Shop} {k : Kind}
    → Step s k t
    → k ≢ stray
    → Distinct s
    → (p : Ptr) → p ≢ null
    → Kept p s t
unfolding Kept places count
Step-Kept {s} (take x q e) ok d p real = inl (ground (arith, count-a_q_get p x s.free q e real))
Step-Kept {s} (publish x before after e) ok d p real =
    inl (ground (arith, count-a_q_put p x s.busy, count_middle p x s.taking before after))
Step-Kept {s} (refill x object new) ok d p real = places-refill p x s new
Step-Kept {s} (retire x h) ok d p real = inl (ground (arith, count-a_q_remove p x s.busy, d p real))
Step-Kept {s} (retire_unused x h) ok d p real = absurd (ok refl)
Step-Kept {s} (give_back x before after e) ok d p real =
    inl (ground (arith, count-a_q_put p x s.free, count_middle p x s.returning before after))

-- If no object stands in more than one place at first, then however the threads interleave their
-- allocations, refills by new objects, and releases of what is in use, no object stands in more
-- than one place, and each that stood in one still does: none is lost, and none is both free and in
-- use or handed to two threads. `NULL`, which an allocation from an empty pool puts into the busy
-- queue, is not an object.
pub Reach-places :
    {s t : Shop}
    → Reach s t
    → Distinct s
    → Distinct t × ((p : Ptr) → p ≢ null → places p s ≡ 1 → places p t ≡ 1)
unfolding Kept
Reach-places here d = (d, λ p real e. e)
Reach-places (next {t = t} r st ok) d =
    let (d', kept) = Reach-places r d in
    (
      λ p real. elim (Step-Kept st ok d' p real) [
        | inl same ↦ omega (arith, same, d' p real)
        | inr new ↦ omega (arith, new.1)
      ],
      λ p real e. elim (Step-Kept st ok d' p real) [
        | inl same ↦ same ∙ kept p real e
        | inr new ↦ new.1
      ],
    )
