-- ===== src/Reply/Once/Delivery.antt =====
-- What the table of `WriteAllOnce` holds when it returns.
use mathlib.Core.List.{append_assoc}
use acached.Prelude.{
  ℕ, zero, suc, refl, ◌+◌, ◌-◌, ◌^◌, ◌≤◌, ◌<◌, ◌≡◌, sym, ap, ◌∙◌, subst, List, [], ◌∷◌, ◌++◌, true,
  false, Option, some, ◌==◌, length, take, drop, arith, Bool-cases, Option-cases, inl, inr,
  take-append-drop, length-take, length-drop, drop-drop,
}
use acached.Reply.{Iovec, stream, size, Checked, check_iov_total_written}
use acached.Reply.Written.{Continues, counted-Continues, length-stream, stream-append}
use acached.Reply.Once.{
  Attempt, room, hung_up, interrupted, error, would_block, select_loop, sendmsg, Sending, wrote,
  do_write, write_all_once,
}

pub size-append : (xs ys : Iovec) → size (xs ++ ys) ≡ size xs + size ys
size-append [] ys = omega arith
size-append (x ∷ xs) ys = omega (arith, size-append xs ys)

-- One write from `start` on.
pub record Next (iovec : Iovec) (start n : ℕ) (c : Checked) : Type 0 where
  pub next : ℕ
  pub iov_end : c.iov_end ≡ some next
  pub rest : stream (drop next c.iovec) ≡ drop n (stream (drop start iovec))
  pub within : next ≤ length c.iovec

pub Next-write :
    (iovec : Iovec) (start count n : ℕ)
    → start ≤ length iovec
    → 0 < n
    → n ≤ size (take count (drop start iovec))
    → size (drop start iovec) < 2 ^ 32
    → Next iovec start n (check_iov_total_written iovec start count n)
Next-write iovec start count n le lo fits hi =
    let sent = take start iovec in
    let later = drop start iovec in
    let entries = take count later in
    let tail = drop count later in
    let parts : entries ++ tail ≡ later = take-append-drop count later in
    let at : length sent ≡ start = omega (arith, length-take start iovec) in
    let whole : sent ++ (entries ++ tail) ≡ iovec =
      ap (◌++◌ sent) parts ∙ take-append-drop start iovec in
    let small : size entries < 2 ^ 32 = omega (arith, size-append entries tail, ap size parts) in
    let k = counted-Continues sent entries tail count n (ap (take count) parts) lo fits small in
    let moved =
      subst (λ t. Continues sent entries tail n (check_iov_total_written t (length sent) count n))
        whole k in
    let here =
      subst (λ i. Continues sent entries tail n (check_iov_total_written iovec i count n)) at
        moved in
    record {
      next = here.next;
      iov_end = here.iov_end;
      rest = here.rest ∙ ap (λ es. drop n (stream es)) parts;
      within = here.within;
    }

pub size-take : (n : ℕ) (xs : Iovec) → size (take n xs) ≤ size xs
size-take n xs = omega (arith, size-append (take n xs) (drop n xs), ap size (take-append-drop n xs))

-- The first bytes of a stream.
take_append : {A : Type 0} (n : ℕ) (xs ys : List A) → n ≤ length xs → take n (xs ++ ys) ≡ take n xs
take_append zero xs ys le = refl
take_append (suc n) [] ys le = absurd (omega arith)
take_append (suc n) (x ∷ xs) ys le = ap (◌∷◌ x) (take_append n xs ys (omega arith))

take_nil : {A : Type 0} (n : ℕ) → take {A = A} n [] ≡ []
take_nil zero = refl
take_nil (suc n) = refl

take_more : {A : Type 0} (n b : ℕ) (xs : List A) → take n xs ++ take b (drop n xs) ≡ take (n + b) xs
take_more zero b xs = let e : b ≡ 0 + b = omega arith in ap (λ k. take k xs) e
take_more (suc n) b [] = take_nil b ∙ sym (take_nil (suc n + b))
take_more (suc n) b (x ∷ xs) =
    let e : suc (n + b) ≡ suc n + b = omega arith in
    ap (◌∷◌ x) (take_more n b xs) ∙ ap (λ k. take k (x ∷ xs)) e

-- What one write takes of the offered entries are the first bytes of all.
offered-first :
    (n count : ℕ) (xs : Iovec)
    → n ≤ size (take count xs)
    → take n (stream (take count xs)) ≡ take n (stream xs)
offered-first n count xs le =
    sym (
      take_append n (stream (take count xs)) (stream (drop count xs))
        (omega (arith, le, length-stream (take count xs))))
    ∙ ap (take n) (sym (stream-append (take count xs) (drop count xs)))
    ∙ ap (λ es. take n (stream es)) (take-append-drop count xs)

-- The kernel has taken `taken`, the first `bytes` of what waited from `start` on, and the bytes from
-- the entry `next` of the table on are those behind.
pub record Delivered (iovec : Iovec) (start bytes : ℕ) (iovec' : Iovec) (taken : List ℕ)
    : Type 0 where
  pub kernel : taken ≡ take bytes (stream (drop start iovec))
  pub next : ℕ
  pub rest : stream (drop next iovec') ≡ drop bytes (stream (drop start iovec))
  pub some_bytes : 0 < bytes
  pub no_more : bytes ≤ size (drop start iovec)

Wrote : Iovec → ℕ → ℕ → List ℕ → ℕ → Iovec → List ℕ → Type 0
Wrote iovec start totalcount before m iovec' taken =
    (bytes : ℕ) × (now : List ℕ) × (m ≡ totalcount + bytes)
    × (taken ≡ before ++ now)
    × Delivered iovec start bytes iovec' now

wrote_inj :
    {a b : ℕ} {x y : Iovec} {s t : List ℕ}
    → ◌≡◌ {A = Option Sending} (some (wrote a, (x, s))) (some (wrote b, (y, t)))
    → (a ≡ b) × (x ≡ y) × (s ≡ t)
wrote_inj e = ground (arith, e)

pub remaining :
    (iovec iovec' : Iovec) (start next n : ℕ)
    → stream (drop next iovec') ≡ drop n (stream (drop start iovec))
    → size (drop next iovec') ≡ size (drop start iovec) - n
remaining iovec iovec' start next n e = omega (
  arith,
  ap length e,
  length-stream (drop next iovec'),
  length-stream (drop start iovec),
  length-drop n (stream (drop start iovec)),
)

-- A write of `n` bytes before the others.
extend :
    (iovec table iovec' : Iovec) (start next n b : ℕ) (now : List ℕ)
    → stream (drop next table) ≡ drop n (stream (drop start iovec))
    → 0 < n
    → n ≤ size (drop start iovec)
    → Delivered table next b iovec' now
    → Delivered iovec start (n + b) iovec' (take n (stream (drop start iovec)) ++ now)
extend iovec table iovec' start next n b now e lo fits d = record {
  kernel =
      ap (◌++◌ (take n (stream (drop start iovec)))) (d.kernel ∙ ap (take b) e)
      ∙ take_more n b (stream (drop start iovec));
  next = d.next;
  rest = d.rest ∙ ap (drop b) e ∙ drop-drop n b (stream (drop start iovec));
  some_bytes = omega (arith, d.some_bytes);
  no_more = omega (arith, d.no_more, remaining iovec table start next n e, fits);
}

room-Wrote :
    (attempts : List Attempt) (bytes start count totalcount m : ℕ) (iovec iovec' : Iovec)
    (before taken : List ℕ)
    → ((start' totalcount' : ℕ) (table : Iovec) (before' : List ℕ)
        → start' ≤ length table
        → size (drop start' table) < 2 ^ 32
        → (count' : ℕ)
        → do_write attempts start' count' totalcount' table before'
          ≡ some (wrote m, (iovec', taken))
        → Wrote table start' totalcount' before' m iovec' taken)
    → start ≤ length iovec
    → size (drop start iovec) < 2 ^ 32
    → do_write (room bytes ∷ attempts) start count totalcount iovec before
      ≡ some (wrote m, (iovec', taken))
    → Wrote iovec start totalcount before m iovec' taken
unfolding Wrote do_write
room-Wrote attempts bytes start count totalcount m iovec iovec' before taken ih le hi run =
    let n = sendmsg (take count (drop start iovec)) bytes in
    let c = check_iov_total_written iovec start count n in
    let now = take n (stream (take count (drop start iovec))) in
    let first : now ≡ take n (stream (drop start iovec)) =
      offered-first n count (drop start iovec) (omega arith) in
    elim (Bool-cases (n == 0)) [
      | inl none_sent ↦ absurd (ground (arith, none_sent))
      | inr sent ↦
          let k = Next-write iovec start count n le (ground arith) (omega arith) hi in
          let fits : n ≤ size (drop start iovec) =
            omega (arith, size-take count (drop start iovec)) in
          elim (Bool-cases c.complete) [
            | inl all ↦
                let (p, q, o) = wrote_inj (rw (sent, k.iov_end, all) at run) in
                (
                  n,
                  now,
                  sym p,
                  sym o,
                  record {
                    kernel = first;
                    next = k.next;
                    rest = ap (λ t. stream (drop k.next t)) (sym q) ∙ k.rest;
                    some_bytes = ground (arith, sent);
                    no_more = fits;
                  },
                )
            | inr part ↦
                let left : size (drop k.next c.iovec) ≡ size (drop start iovec) - n =
                  remaining iovec c.iovec start k.next n k.rest in
                let (b, later, p, o, d) =
                  ih k.next (totalcount + n) c.iovec (before ++ now) k.within (omega (arith, left))
                    _ (rw (sent, k.iov_end, part) at run) in
                (
                  n + b,
                  take n (stream (drop start iovec)) ++ later,
                  p ∙ omega arith,
                  o ∙ append_assoc before now later ∙ ap (λ l. before ++ (l ++ later)) first,
                  extend iovec c.iovec iovec' start k.next n b later k.rest (ground (arith, sent))
                      fits d,
                )
          ]
    ]

do_write-Wrote :
    (attempts : List Attempt) (start totalcount : ℕ) (iovec : Iovec) (before : List ℕ) (m : ℕ)
    (iovec' : Iovec) (taken : List ℕ)
    → start ≤ length iovec
    → size (drop start iovec) < 2 ^ 32
    → (count : ℕ)
    → do_write attempts start count totalcount iovec before ≡ some (wrote m, (iovec', taken))
    → Wrote iovec start totalcount before m iovec' taken
unfolding do_write
do_write-Wrote [] start totalcount iovec before m iovec' taken le hi count run =
    absurd (ground (arith, run))
do_write-Wrote (room bytes ∷ attempts) start totalcount iovec before m iovec' taken le hi count
      run =
    room-Wrote attempts bytes start count totalcount m iovec iovec' before taken
      (λ s t table o. do_write-Wrote attempts s t table o m iovec' taken) le hi run
do_write-Wrote (hung_up ∷ attempts) start totalcount iovec before m iovec' taken le hi count run =
    absurd (ground (arith, run))
do_write-Wrote (interrupted ∷ attempts) start totalcount iovec before m iovec' taken le hi count
      run =
    do_write-Wrote attempts start totalcount iovec before m iovec' taken le hi count run
do_write-Wrote (error ∷ attempts) start totalcount iovec before m iovec' taken le hi count run =
    absurd (ground (arith, run))
do_write-Wrote (would_block waits ∷ attempts) start totalcount iovec before m iovec' taken le hi
      count run =
    elim (Option-cases (select_loop 0 waits)) [
      | inl e ↦ absurd (ground (arith, rw (e, do_write) at run))
      | inr (true, e) ↦
          do_write-Wrote attempts start totalcount iovec before m iovec' taken le hi count
            (rw (e, do_write) at run)
      | inr (false, e) ↦ absurd (ground (arith, rw (e, do_write) at run))
    ]

-- When `WriteAllOnce` returns a count, after whatever partial writes, signals and waits, on a table
-- with fewer than 2 ^ 32 bytes from `start` on: the count is positive and at most the number of
-- those bytes, the kernel has taken exactly the first so many of them over all calls, in order, none
-- twice and none left out, and the table holds from some entry on exactly the bytes behind.
pub write_all_once-Delivered :
    (attempts : List Attempt) (start count m : ℕ) (iovec iovec' : Iovec) (taken : List ℕ)
    → start ≤ length iovec
    → size (drop start iovec) < 2 ^ 32
    → write_all_once attempts start count iovec ≡ some (wrote m, (iovec', taken))
    → Delivered iovec start m iovec' taken
unfolding write_all_once Wrote
write_all_once-Delivered attempts start count m iovec iovec' taken le hi run =
    let (bytes, now, p, o, d) =
      do_write-Wrote attempts start 0 iovec [] m iovec' taken le hi count run in
    let e : bytes ≡ m = omega (arith, p) in
    subst (λ b. Delivered iovec start b iovec' taken) e
      (subst (λ l. Delivered iovec start bytes iovec' l) (sym o) d)
