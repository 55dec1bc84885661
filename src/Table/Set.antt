-- ===== src/Table/Set.antt =====
-- `set` on one bucket: the chain afterwards is the list insertion, and the rest of the heap stays.
use acached.Prelude.{
  ℕ, zero, suc, ◌≤◌, ◌<◌, ◌≡◌, ◌≢◌, refl, [], ◌∷◌, Bool, true, false, none, some, ◌==◌,
  if◌then◌else◌, arith, ==_refl, inl, inr, length, Option-cases, ◌∙◌,
}
use acached.Queue.{Ptr, null}
use acached.Table.Memory.{Heap, KvData, Entry, kv_data, write, store, ◌>>=◌, load_run, strncmp_run}
use acached.Table.Chain.{
  Cells, head_ptr, has, Linked, insert, Comparable, matches, insert_hit, insert_miss, insert-nil,
}
use acached.Table.Replace.{Leaves, Holds, replaced, replace_run, replace_Leaves}
use acached.Table.{replace, append, set_loop, set_bucket}

pub has-insert :
    (q n : Ptr) (e : Entry) (xs : Cells)
    → (q == n) ≡ false
    → has q xs ≡ false
    → has q (insert n e xs) ≡ false
unfolding has insert
has-insert q n e [] h o = ground arith
has-insert q n e ((a, x) ∷ xs) h o = ground (arith, has-insert q n e xs)

-- The record before `xs`, if there is one, is linked to it.
abbrev pub Before : Heap → Ptr → Ptr → Cells → Type 0
Before h prev n xs =
    Holds h prev
    × (n ≢ prev)
    × (has prev xs ≡ false)
    × ((k : KvData) → prev ≢ null → h prev ≡ some k → k.next ≡ head_ptr xs)

module _ (n : Ptr) (kn : KvData) (n_real : n ≢ null) where
  append-Leaves :
      (h : Heap) (prev a : Ptr) (old : Entry)
      → h n ≡ some kn
      → has n ((a, old) ∷ []) ≡ false
      → Linked h prev ((a, old) ∷ [])
      → Before h prev n ((a, old) ∷ [])
      → (g : Heap) × (append a n h ≡ some (false, g))
        × Leaves h g prev n ((a, old) ∷ []) ((a, old) ∷ (n, kn.entry) ∷ [])
  unfolding append store write has
  append-Leaves h prev a old fresh out chain before =
      let g : Heap =
        write (write h a (some (kv_data old n prev))) n (some (kv_data kn.entry null a)) in
      let apart : (n == a) ≡ false = ground arith in
      (
        g,
        rw (
          load_run a h _ chain.0 chain.2,
          ◌>>=◌,
          load_run n (write h a (some (kv_data old n prev))) kn n_real (ground arith),
        ),
        record {
          linked = (chain.0, ground arith, ground arith, (n_real, refl, ground arith, tt));
          before = λ k real e. ground (arith, before.3 k);
          outside = λ q i j o. ground arith;
          freed = λ q i o. ground arith;
        },
      )

  -- A miss at `a`, and what the rest of the loop left.
  cons_Leaves :
      (h g : Heap) (prev a : Ptr) (old : Entry) (xs : Cells)
      → has n ((a, old) ∷ xs) ≡ false
      → Linked h prev ((a, old) ∷ xs)
      → Before h prev n ((a, old) ∷ xs)
      → Leaves h g a n xs (insert n kn.entry xs)
      → Leaves h g prev n ((a, old) ∷ xs) ((a, old) ∷ insert n kn.entry xs)
  unfolding has
  cons_Leaves h g prev a old xs out chain before rest = record {
    linked = (
      chain.0,
      has-insert a n kn.entry xs (ground arith) chain.1,
      rest.before _ chain.0 chain.2,
      rest.linked,
    );
    before = λ k real e. ground (arith, before.3 k, rest.outside prev);
    outside = λ q i j o. ground (arith, rest.outside q);
    freed = λ q i o. ground (arith, rest.freed q);
  }

  module _ (fuel : ℕ) (h : Heap) (head prev a : Ptr) (old : Entry) (xs : Cells)
      (fresh : h n ≡ some kn) (chain : Linked h prev ((a, old) ∷ xs)) where
    set_loop_hit :
        matches kn.bytes kn.keylen old ≡ some true
        → set_loop (suc fuel) head a n h ≡ replace head a n h
    unfolding set_loop
    set_loop_hit e = rw (
      load_run n h kn n_real fresh,
      ◌>>=◌,
      load_run a h _ chain.0 chain.2,
      strncmp_run kn.bytes old.bytes kn.keylen h true e,
    )

    set_loop_miss :
        matches kn.bytes kn.keylen old ≡ some false
        → set_loop (suc fuel) head a n h
          ≡ (if head_ptr xs == null then append a n else set_loop fuel head (head_ptr xs) n) h
    unfolding set_loop
    set_loop_miss e = rw (
      load_run n h kn n_real fresh,
      ◌>>=◌,
      load_run a h _ chain.0 chain.2,
      strncmp_run kn.bytes old.bytes kn.keylen h false e,
    )

  -- The outcome of the loop from the record `a` on: it ends without a fault, the chain is the
  -- insertion, and the flag says whether the head of the bucket has to change.
  abbrev Outcome : Heap → Ptr → Ptr → Ptr → ℕ → Cells → Type 0
  Outcome h head prev a fuel xs =
      (g : Heap) × (at : Bool) × (set_loop fuel head a n h ≡ some (at, g))
      × Leaves h g prev n xs (insert n kn.entry xs)
      × ((if at then n else head) ≡ (if a == head then head_ptr (insert n kn.entry xs) else head))

  hit_Outcome :
      (fuel : ℕ) (h : Heap) (head prev a : Ptr) (old : Entry) (xs : Cells)
      → h n ≡ some kn
      → has n ((a, old) ∷ xs) ≡ false
      → Linked h prev ((a, old) ∷ xs)
      → Before h prev n ((a, old) ∷ xs)
      → matches kn.bytes kn.keylen old ≡ some true
      → Outcome h head prev a (suc fuel) ((a, old) ∷ xs)
  hit_Outcome fuel h head prev a old xs fresh out chain before e =
      let (holds, apart, po, _) = before in
      (
        replaced h kn n kn.entry a prev (head_ptr xs),
        a == head,
        set_loop_hit fuel h head prev a old xs fresh chain e
            ∙ replace_run h prev n a old kn xs n_real fresh out apart chain holds po head,
        rw (insert_hit n a kn.entry old xs e)
            (replace_Leaves h prev n a old kn xs n_real fresh out apart chain holds po),
        rw (insert_hit n a kn.entry old xs e) (ground arith),
      )

  set_loop_Outcome :
      (fuel : ℕ) (h : Heap) (head prev a : Ptr) (old : Entry) (xs : Cells)
      → length xs < fuel
      → h n ≡ some kn
      → has n ((a, old) ∷ xs) ≡ false
      → Linked h prev ((a, old) ∷ xs)
      → Before h prev n ((a, old) ∷ xs)
      → Comparable kn.bytes kn.keylen ((a, old) ∷ xs)
      → has head xs ≡ false
      → Outcome h head prev a fuel ((a, old) ∷ xs)
  unfolding has
  set_loop_Outcome zero h head prev a old xs lt fresh out chain before comp ho =
      absurd (omega arith)
  set_loop_Outcome (suc fuel) h head prev a old [] lt fresh out chain before comp ho =
      elim (Option-cases (matches kn.bytes kn.keylen old)) [
        | inl e ↦ absurd (comp.0 e)
        | inr (true, e) ↦ hit_Outcome fuel h head prev a old [] fresh out chain before e
        | inr (false, e) ↦
            let (g, run, left) = append-Leaves h prev a old fresh out chain before in
            let grown = insert_miss n a kn.entry old [] e in
            (
              g,
              false,
              set_loop_miss fuel h head prev a old [] fresh chain e ∙ run,
              rw (grown, insert-nil) left,
              rw grown (ground arith),
            )
      ]
  set_loop_Outcome (suc fuel) h head prev a old ((b, x) ∷ xs) lt fresh out chain before comp ho =
      elim (Option-cases (matches kn.bytes kn.keylen old)) [
        | inl e ↦ absurd (comp.0 e)
        | inr (true, e) ↦ hit_Outcome fuel h head prev a old ((b, x) ∷ xs) fresh out chain before e
        | inr (false, e) ↦
            let (g, at, run, left, flag) =
              set_loop_Outcome fuel h head a b x xs (omega arith) fresh (ground arith) chain.3
                (inr (_, chain.0, chain.2), ground arith, chain.1, λ k real h'. ground arith) comp.1
                (ground arith) in
            let next : (b == null) ≡ false = ground arith in
            let grown = insert_miss n a kn.entry old ((b, x) ∷ xs) e in
            (
              g,
              at,
              set_loop_miss fuel h head prev a old ((b, x) ∷ xs) fresh chain e ∙ rw next run,
              rw grown (cons_Leaves h g prev a old ((b, x) ∷ xs) out chain before left),
              rw grown (ground arith),
            )
      ]

-- What the end of `set` on one bucket leaves.
pub record Inserted (h g : Heap) (n : Ptr) (xs ys : Cells) : Type 0 where
  pub linked : Linked g null ys
  pub outside : (q : Ptr) → (q == null) ≡ false → (q == n) ≡ false → has q xs ≡ false → g q ≡ h q
  pub freed : (q : Ptr) → has q xs ≡ true → has q ys ≡ false → g q ≡ none

pub has-null : (h : Heap) (prev : Ptr) (xs : Cells) → Linked h prev xs → has null xs ≡ false
unfolding has
has-null h prev [] l = refl
has-null h prev ((a, x) ∷ xs) l = ground (arith, has-null h a xs l.3, l.0)

set_bucket_run :
    (fuel : ℕ) (h g : Heap) (a n : Ptr) (at : Bool)
    → a ≢ null
    → set_loop fuel a a n h ≡ some (at, g)
    → set_bucket fuel a n h ≡ some (if at then n else a, g)
unfolding set_bucket
set_bucket_run fuel h g a n at real run =
    let miss : (a == null) ≡ false = ground arith in rw (miss, run, ◌>>=◌)

-- On a bucket whose chain is `xs`, `set` of a fresh record `n` does not fault and ends within one
-- round for each record of the chain; the chain is then the insertion into `xs`, the record that
-- was replaced is freed, and no other record of the heap changes.
pub set_bucket-insert :
    (fuel : ℕ) (h : Heap) (n : Ptr) (kn : KvData) (xs : Cells)
    → length xs ≤ fuel
    → n ≢ null
    → h n ≡ some kn
    → has n xs ≡ false
    → Linked h null xs
    → Comparable kn.bytes kn.keylen xs
    → (g : Heap) × (set_bucket fuel (head_ptr xs) n h ≡ some (head_ptr (insert n kn.entry xs), g))
      × Inserted h g n xs (insert n kn.entry xs)
unfolding set_bucket insert has store
set_bucket-insert fuel h n kn [] le real fresh out chain comp = (
  write h n (some (kv_data kn.entry null null)),
  rw (load_run n h kn real fresh, ◌>>=◌),
  record {
    linked = (real, refl, unfold write in ground arith, tt);
    outside = λ q z i o. unfold write in ground arith;
    freed = λ q i o. cc;
  },
)
set_bucket-insert fuel h n kn ((a, x) ∷ xs) le real fresh out chain comp =
    let (g, at, run, left, flag) =
      set_loop_Outcome n kn real fuel h a null a x xs (omega arith) fresh out chain
        (inl refl, real, has-null h null ((a, x) ∷ xs) chain, λ k r e. absurd (r refl)) comp
        chain.1 in
    let head : (if at then n else a) ≡ head_ptr (insert n kn.entry ((a, x) ∷ xs)) =
      flag ∙ rw (==_refl a) in
    (
      g,
      rw (set_bucket_run fuel h g a n at chain.0 run, head),
      record {
        linked = left.linked;
        outside = λ q z i o. left.outside q i z o;
        freed = left.freed;
      },
    )
