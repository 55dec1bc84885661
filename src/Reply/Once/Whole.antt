-- ===== src/Reply/Once/Whole.antt =====
-- `WriteAllOnce` where the kernel has room for everything.
use acached.Prelude.{
  ℕ, ◌^◌, ◌≤◌, ◌<◌, ◌≡◌, refl, sym, ap, ◌∙◌, subst, List, ◌∷◌, ◌++◌, true, false, some, ◌==◌,
  length, take, drop, arith, drop-append_length, take-append-drop, take_all, length-take,
}
use acached.Reply.{Iovec, stream, size, Checked, total_loop, settle, check_iov_total_written}
use acached.Reply.Written.{length-stream, total_loop-Ends}
use acached.Reply.Once.{Attempt, room, sendmsg, wrote, do_write, write_all_once}
use acached.Reply.Once.Delivery.{size-append}

record Whole (table : Iovec) (c : Checked) : Type 0 where
  complete : c.complete ≡ true
  iov_end : ℕ
  assigned : c.iov_end ≡ some iov_end
  iovec : c.iovec ≡ table

check-Whole :
    (sent entries tail : Iovec) (count : ℕ)
    → take count (entries ++ tail) ≡ entries
    → 0 < size entries
    → size entries < 2 ^ 32
    → Whole
        (sent ++ (entries ++ tail))
        (check_iov_total_written (sent ++ (entries ++ tail)) (length sent) count (size entries))
unfolding check_iov_total_written settle
check-Whole sent entries tail count chosen lo hi =
    let n = size entries in
    let s = total_loop n 0 record { total = 0; tmptotal = 0; found = 0 } entries in
    let x = total_loop-Ends n 0 0 0 entries lo (omega arith) (omega arith) in
    let parts = ap size x.parts in
    let split = size-append x.before (x.entry ∷ x.after) in
    let full : s.tmptotal ≡ n = omega (arith, x.tmptotal, x.reached, parts, split) in
    let hit : (s.tmptotal == 0) ≡ false = ground (arith, full, lo) in
    let offered : take count (drop (length sent) (sent ++ (entries ++ tail))) ≡ entries =
      ap (take count) (drop-append_length sent (entries ++ tail)) ∙ chosen in
    let all : (s.tmptotal == n) ≡ true = ground (arith, full) in
    rw (offered, hit, all) record { complete = refl; iov_end = _; assigned = refl; iovec = refl }

-- A write with room for all the offered bytes sends them by one call and leaves the table.
pub write_all_once-whole :
    (attempts : List Attempt) (sent entries tail : Iovec) (count n : ℕ)
    → take count (entries ++ tail) ≡ entries
    → 0 < size entries
    → size entries < 2 ^ 32
    → size entries ≤ n
    → write_all_once (room n ∷ attempts) (length sent) count (sent ++ (entries ++ tail))
      ≡ some (wrote (size entries), (sent ++ (entries ++ tail), stream entries))
unfolding write_all_once do_write
write_all_once-whole attempts sent entries tail count n chosen lo hi fits =
    let table = sent ++ (entries ++ tail) in
    let m = sendmsg (take count (drop (length sent) table)) n in
    let offered : take count (drop (length sent) table) ≡ entries =
      ap (take count) (drop-append_length sent (entries ++ tail)) ∙ chosen in
    let all : m ≡ size entries = ap (λ es. sendmsg es n) offered ∙ omega arith in
    let c =
      subst (λ k. Whole table (check_iov_total_written table (length sent) count k)) (sym all)
        (check-Whole sent entries tail count chosen lo hi) in
    let some_sent : (m == 0) ≡ false = ground (arith, all, lo) in
    let now = take m (stream (take count (drop (length sent) table))) in
    let kernel : now ≡ stream entries =
      ap (λ es. take m (stream es)) offered
      ∙ take_all m (stream entries) (omega (arith, all, length-stream entries)) in
    rw (some_sent, c.assigned, c.complete, c.iovec)
      (ap (λ k. some (wrote k, (table, now))) (omega (arith, all))
        ∙ ap (λ l. some (wrote (size entries), (table, l))) kernel)

-- The same by the index of the first entry and the number of entries.
pub write_all_once-offered :
    (attempts : List Attempt) (start count n : ℕ) (iovec : Iovec)
    → start ≤ length iovec
    → 0 < size (take count (drop start iovec))
    → size (take count (drop start iovec)) < 2 ^ 32
    → size (take count (drop start iovec)) ≤ n
    → write_all_once (room n ∷ attempts) start count iovec
      ≡ some (
        wrote (size (take count (drop start iovec))),
        (iovec, stream (take count (drop start iovec))),
      )
write_all_once-offered attempts start count n iovec le lo hi fits =
    let later = drop start iovec in
    let entries = take count later in
    let parts : entries ++ drop count later ≡ later = take-append-drop count later in
    let at : length (take start iovec) ≡ start = omega (arith, length-take start iovec) in
    let whole : take start iovec ++ (entries ++ drop count later) ≡ iovec =
      ap (◌++◌ (take start iovec)) parts ∙ take-append-drop start iovec in
    subst
      (λ t.
        write_all_once (room n ∷ attempts) start count t
        ≡ some (wrote (size entries), (t, stream entries)))
      whole
      (subst
        (λ i.
          write_all_once (room n ∷ attempts) i count
            (take start iovec ++ (entries ++ drop count later))
          ≡ some (
            wrote (size entries),
            (take start iovec ++ (entries ++ drop count later), stream entries),
          ))
        at
        (write_all_once-whole attempts (take start iovec) entries (drop count later) count n
          (ap (take count) parts) lo hi fits))
