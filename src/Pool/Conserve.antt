-- ===== src/Pool/Conserve.antt =====
-- What allocation and release do to a pool whose mutexes are free.
use mathlib.Core.List.{append_assoc, append-nil}
use acached.Prelude.{
  ℕ, suc, ◌+◌, ◌≡◌, ◌≢◌, refl, List, [], ◌∷◌, ◌++◌, false, some, ◌==◌, if◌then◌else◌, arith,
  ==_refl, ap,
}
use acached.Queue.{Ptr, null, remove}
use acached.Queue.FreeBusy.Shared.{FbSharedQ, ◌>>=◌}
use acached.Pool.{a_sga_allocate, a_sga_release, a_msg_allocate, put_free_all}

-- A pair of queues with free mutexes.
abbrev pub idle : ℕ → ℕ → List Ptr → List Ptr → FbSharedQ
idle kind type free busy = record {
  fbsq_type = kind;
  free_q = record { q = record { type = type; items = free }; locked = false };
  busy_q = record { q = record { type = type; items = busy }; locked = false };
}

-- How often an object stands in a queue.
unfoldable pub count : Ptr → List Ptr → ℕ
count p [] = 0
count p (x ∷ xs) = (if x == p then 1 else 0) + count p xs

pub count-append : (p : Ptr) (xs ys : List Ptr) → count p (xs ++ ys) ≡ count p xs + count p ys
unfolding count
count-append p [] ys = omega arith
count-append p (x ∷ xs) ys = omega (arith, count-append p xs ys)

pub count-remove :
    (p x : Ptr) (xs : List Ptr) → count p (remove x xs) ≡ (if x == p then 0 else count p xs)
unfolding count remove
count-remove p x [] = ground arith
count-remove p x (y ∷ ys) = ground (arith, count-remove p x ys)

remove_absent : (p : Ptr) (xs : List Ptr) → count p xs ≡ 0 → remove p xs ≡ xs
unfolding count remove
remove_absent p [] h = refl
remove_absent p (x ∷ xs) h = ground (arith, remove_absent p xs)

remove-append : (p : Ptr) (xs ys : List Ptr) → remove p (xs ++ ys) ≡ remove p xs ++ remove p ys
unfolding remove
remove-append p [] ys = refl
remove-append p (x ∷ xs) ys = ground (arith, remove-append p xs ys)

remove_last : (p : Ptr) (xs : List Ptr) → count p xs ≡ 0 → remove p (xs ++ p ∷ []) ≡ xs
unfolding remove
remove_last p xs h = rw (remove-append, remove_absent p xs h, ==_refl p) (append-nil xs)

-- What an allocation makes of the queues.
abbrev pub Allocates : ℕ → ℕ → List Ptr → List Ptr → Type 0
Allocates kind type [] busy =
    a_sga_allocate (idle kind type [] busy) ≡ some (null, idle kind type [] (busy ++ null ∷ []))
Allocates kind type (p ∷ free) busy =
    a_sga_allocate (idle kind type (p ∷ free) busy) ≡ some (p, idle kind type free (busy ++ p ∷ []))

pub allocate_lem : (kind type : ℕ) (free busy : List Ptr) → Allocates kind type free busy
unfolding a_sga_allocate
allocate_lem kind type [] busy = refl
allocate_lem kind type (p ∷ free) busy = refl

pub release_lem :
    (kind type : ℕ) (free busy : List Ptr) (p : Ptr)
    → a_sga_release p (idle kind type free busy)
      ≡ some (null, idle kind type (free ++ p ∷ []) (remove p busy))
unfolding a_sga_release
release_lem kind type free busy p = refl

-- The objects of a pool, used or not.
abbrev pub owned : FbSharedQ → List Ptr
owned f = f.free_q.q.items ++ f.busy_q.q.items

-- On a pool whose mutexes are free, where the oldest free object stands in one place: an allocation
-- takes that object into use, and nothing is lost or made up. The object then stands in the busy
-- queue once, so that its release takes it out of there, appends it to the free queue, and leaves
-- the other objects in use as they were.
pub release-allocate :
    (kind type : ℕ) (p : Ptr) (free busy : List Ptr)
    → count p (p ∷ free ++ busy) ≡ 1
    → (f : FbSharedQ) × (a_sga_allocate (idle kind type (p ∷ free) busy) ≡ some (p, f))
      × ((q : Ptr) → count q (owned f) ≡ count q (p ∷ free ++ busy))
      × (count p f.busy_q.q.items ≡ 1)
      × (a_sga_release p f ≡ some (null, idle kind type (free ++ p ∷ []) busy))
unfolding count
release-allocate kind type p free busy once =
    let absent : count p busy ≡ 0 = ground (arith, count-append p free busy) in
    (
      idle kind type free (busy ++ p ∷ []),
      allocate_lem kind type (p ∷ free) busy,
      (λ q. grind (arith, count-append)),
      ground (arith, count-append p busy (p ∷ [])),
      rw (release_lem, remove_last p busy absent),
    )

pub put_free_all_lem :
    (kind type : ℕ) (ptrs free busy : List Ptr)
    → put_free_all ptrs (idle kind type free busy) ≡ some (tt, idle kind type (free ++ ptrs) busy)
unfolding put_free_all
put_free_all_lem kind type [] free busy = rw append-nil
put_free_all_lem kind type (p ∷ ptrs) free busy =
    rw (put_free_all_lem kind type ptrs (free ++ p ∷ []) busy, append_assoc)

-- On a message pool whose mutexes are free and which has no free message, where the new messages
-- begin with an address that is not `NULL`: with two rounds or more, the pool is refilled and the
-- allocation returns the first new message in the second round; the busy queue keeps the `NULL` of
-- the first round.
pub msg_allocate_exhausted :
    (kind type : ℕ) (busy ptrs : List Ptr) (p : Ptr) (fresh : ℕ → List Ptr) (fuel : ℕ)
    → p ≢ null
    → fresh 0 ≡ p ∷ ptrs
    → a_msg_allocate (suc (suc fuel)) fresh (idle kind type [] busy)
      ≡ some (p, idle kind type ptrs (busy ++ null ∷ p ∷ []))
unfolding a_msg_allocate
msg_allocate_exhausted kind type busy ptrs p fresh fuel real e =
    let miss : (p == null) ≡ false = ground arith in
    rw
      (
        allocate_lem kind type [] busy,
        e,
        put_free_all_lem kind type (p ∷ ptrs) [] (busy ++ null ∷ []),
        allocate_lem kind type (p ∷ ptrs) (busy ++ null ∷ []),
        ◌>>=◌,
        miss,
      )
      (ap (λ b. some (p, idle kind type ptrs b)) (append_assoc busy (null ∷ []) (p ∷ [])))
