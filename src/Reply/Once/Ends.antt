-- ===== src/Reply/Once/Ends.antt =====
-- `WriteAllOnce` ends.
use acached.Prelude.{
  ℕ, suc, ◌+◌, ◌^◌, ◌≤◌, ◌<◌, ◌≡◌, refl, List, [], ◌∷◌, Bool, true, false, some, ◌==◌, length, take,
  drop, arith, Bool-cases, inl, inr,
}
use acached.Reply.{Iovec, size, check_iov_total_written}
use acached.Reply.Once.{
  Attempt, room, hung_up, interrupted, error, would_block, select_loop, sendmsg, Sending, do_write,
  write_all_once,
}
use acached.Reply.Once.Delivery.{Next-write, remaining, size-take}

-- Every attempt with room takes something, and every wait ends.
abbrev pub Settles : List Attempt → Type 0
Settles [] = Unit {0}
Settles (room n ∷ attempts) = (0 < n) × Settles attempts
Settles (hung_up ∷ attempts) = Settles attempts
Settles (interrupted ∷ attempts) = Settles attempts
Settles (error ∷ attempts) = Settles attempts
Settles (would_block waits ∷ attempts) =
    ((b : Bool) × (select_loop 0 waits ≡ some b)) × Settles attempts

-- How many attempts have room.
abbrev pub rooms : List Attempt → ℕ
rooms [] = 0
rooms (room n ∷ attempts) = suc (rooms attempts)
rooms (hung_up ∷ attempts) = rooms attempts
rooms (interrupted ∷ attempts) = rooms attempts
rooms (error ∷ attempts) = rooms attempts
rooms (would_block waits ∷ attempts) = rooms attempts

Ends : List Attempt → ℕ → ℕ → ℕ → Iovec → List ℕ → Type 0
Ends attempts start count totalcount iovec taken =
    (r : Sending) × (do_write attempts start count totalcount iovec taken ≡ some r)

room-Ends :
    (attempts : List Attempt) (bytes start count totalcount : ℕ) (iovec : Iovec) (taken : List ℕ)
    → ((start' totalcount' : ℕ) (table : Iovec) (taken' : List ℕ)
        → start' ≤ length table
        → size (drop start' table) < 2 ^ 32
        → size (drop start' table) < rooms attempts
        → (count' : ℕ) → Ends attempts start' count' totalcount' table taken')
    → start ≤ length iovec
    → size (drop start iovec) < 2 ^ 32
    → size (drop start iovec) < suc (rooms attempts)
    → Ends (room bytes ∷ attempts) start count totalcount iovec taken
unfolding Ends do_write
room-Ends attempts bytes start count totalcount iovec taken ih le hi enough =
    let n = sendmsg (take count (drop start iovec)) bytes in
    let c = check_iov_total_written iovec start count n in
    elim (Bool-cases (n == 0)) [
      | inl none_sent ↦ rw none_sent (_, refl)
      | inr sent ↦
          let k = Next-write iovec start count n le (ground (arith, sent)) (omega arith) hi in
          let fits : n ≤ size (drop start iovec) =
            omega (arith, size-take count (drop start iovec)) in
          elim (Bool-cases c.complete) [
            | inl all ↦ rw (sent, k.iov_end, all) (_, refl)
            | inr part ↦
                let left = remaining iovec c.iovec start k.next n k.rest in
                let some_sent : 0 < n = ground (arith, sent) in
                rw (sent, k.iov_end, part)
                  (ih k.next (totalcount + n) c.iovec _ k.within (omega (arith, left))
                    (omega (arith, left, some_sent, enough)) _)
          ]
    ]

do_write-Ends :
    (attempts : List Attempt) (start totalcount : ℕ) (iovec : Iovec) (taken : List ℕ)
    → Settles attempts
    → start ≤ length iovec
    → size (drop start iovec) < 2 ^ 32
    → size (drop start iovec) < rooms attempts
    → (count : ℕ) → Ends attempts start count totalcount iovec taken
unfolding Ends do_write
do_write-Ends [] start totalcount iovec taken s le hi enough count = absurd (omega arith)
do_write-Ends (room bytes ∷ attempts) start totalcount iovec taken (lo, s) le hi enough count =
    room-Ends attempts bytes start count totalcount iovec taken
      (λ st t table o l h e. do_write-Ends attempts st t table o s l h e) le hi enough
do_write-Ends (hung_up ∷ attempts) start totalcount iovec taken s le hi enough count = (_, refl)
do_write-Ends (interrupted ∷ attempts) start totalcount iovec taken s le hi enough count =
    do_write-Ends attempts start totalcount iovec taken s le hi enough count
do_write-Ends (error ∷ attempts) start totalcount iovec taken s le hi enough count = (_, refl)
do_write-Ends (would_block waits ∷ attempts) start totalcount iovec taken ((true, e), s) le hi
      enough count =
    rw (e, do_write) (do_write-Ends attempts start totalcount iovec taken s le hi enough count)
do_write-Ends (would_block waits ∷ attempts) start totalcount iovec taken ((false, e), s) le hi
      enough count =
    rw (e, do_write) (_, refl)

-- When every attempt with room takes at least one byte and every wait for room ends, and there are
-- more attempts with room than bytes from `start` on, which are fewer than 2 ^ 32, `WriteAllOnce`
-- returns, whatever signals, full buffers and errors come in between.
pub write_all_once-Ends :
    (attempts : List Attempt) (start count : ℕ) (iovec : Iovec)
    → Settles attempts
    → start ≤ length iovec
    → size (drop start iovec) < 2 ^ 32
    → size (drop start iovec) < rooms attempts
    → (r : Sending) × (write_all_once attempts start count iovec ≡ some r)
unfolding write_all_once Ends
write_all_once-Ends attempts start count iovec s le hi enough =
    do_write-Ends attempts start 0 iovec [] s le hi enough count
