-- ===== src/Reply/Once/Boundary.antt =====
-- `WriteAllOnce` takes a write that ends with an entry for the last one.
use acached.Prelude.{
  ℕ, suc, ◌+◌, ◌%◌, ◌^◌, ◌<◌, ◌≡◌, refl, sym, subst, ap, List, ◌∷◌, ◌++◌, true, false, some, ◌==◌,
  leb, length, take, drop, arith, drop-append_length, take-append_length, ◌∙◌, ==_refl,
}
use acached.Reply.{
  Iovec, stream, Totals, Checked, total_loop, count_entry, settle, check_iov_total_written,
}
use acached.Reply.Written.{total_loop-kept}
use acached.Reply.Once.{Attempt, room, sendmsg, wrote, do_write, write_all_once}

abbrev first_total : ℕ → Totals
first_total n = record { total = n; tmptotal = n; found = 0 }

count_entry_first :
    (n : ℕ)
    → n < 2 ^ 32
    → count_entry n 0 ((0 + n) % 2 ^ 32) (record { total = 0; tmptotal = 0; found = 0 })
      ≡ first_total n
count_entry_first n hi =
    let now : (0 + n) % 2 ^ 32 ≡ n = omega arith in
    let hit : leb n n ≡ true = ground arith in rw (now, hit) refl

total_loop_first :
    (e : List ℕ) (es : Iovec)
    → 0 < length e
    → length e < 2 ^ 32
    → ((total_loop (length e) 0 (record { total = 0; tmptotal = 0; found = 0 }) (e ∷ es)).tmptotal
        ≡ length e)
      × ((total_loop (length e) 0 (record { total = 0; tmptotal = 0; found = 0 }) (e ∷ es)).found
          ≡ 0)
unfolding total_loop
total_loop_first e es lo hi =
    subst
      (λ r.
        ((total_loop (length e) 1 r es).tmptotal ≡ length e)
        × ((total_loop (length e) 1 r es).found ≡ 0))
      (sym (count_entry_first (length e) hi))
      (total_loop-kept (length e) 1 (first_total (length e)) es (omega arith))

record First (sent : Iovec) (e : List ℕ) (es : Iovec) (c : Checked) : Type 0 where
  complete : c.complete ≡ true
  iov_end : c.iov_end ≡ some (length sent + 1)
  iovec : c.iovec ≡ sent ++ e ∷ es

check-First :
    (sent es : Iovec) (e : List ℕ) (count : ℕ)
    → 0 < length e
    → length e < 2 ^ 32
    → First sent e es
        (check_iov_total_written (sent ++ e ∷ es) (length sent) (suc count) (length e))
unfolding check_iov_total_written settle
check-First sent es e count lo hi =
    let (t, f) = total_loop_first e (take count es) lo hi in
    let some_total : (length e == 0) ≡ false = ground arith in
    rw (drop-append_length sent (e ∷ es), t, f, some_total, ==_refl (length e))
      record { complete = refl; iov_end = refl; iovec = refl }

sendmsg_first :
    (sent es : Iovec) (e : List ℕ) (count : ℕ)
    → sendmsg (take (suc count) (drop (length sent) (sent ++ e ∷ es))) (length e) ≡ length e
sendmsg_first sent es e count = rw (drop-append_length sent (e ∷ es)) (omega arith)

-- When the kernel has room for exactly the bytes of the first offered entry, which are at least one
-- and fewer than 2 ^ 32, `WriteAllOnce` returns their number after that one write, whatever entries
-- it was to send behind the first, and leaves them unsent: the kernel has taken that entry alone.
pub write_all_once_boundary :
    (attempts : List Attempt) (sent es : Iovec) (e : List ℕ) (count : ℕ)
    → 0 < length e
    → length e < 2 ^ 32
    → write_all_once (room (length e) ∷ attempts) (length sent) (suc count) (sent ++ e ∷ es)
      ≡ some (wrote (length e), (sent ++ e ∷ es, e))
unfolding write_all_once do_write
write_all_once_boundary attempts sent es e count lo hi =
    let n = sendmsg (take (suc count) (drop (length sent) (sent ++ e ∷ es))) (length e) in
    let offered : n ≡ length e = sendmsg_first sent es e count in
    let k =
      subst
        (λ m.
          First sent e es (check_iov_total_written (sent ++ e ∷ es) (length sent) (suc count) m))
        (sym offered) (check-First sent es e count lo hi) in
    let some_sent : (n == 0) ≡ false = ground (arith, offered) in
    let now = take n (stream (take (suc count) (drop (length sent) (sent ++ e ∷ es)))) in
    let kernel : now ≡ e =
      ap (λ t. take n (stream (take (suc count) t))) (drop-append_length sent (e ∷ es))
      ∙ ap (λ m. take m (e ++ stream (take count es))) offered
      ∙ take-append_length e (stream (take count es)) in
    rw (some_sent, k.iov_end, k.complete, k.iovec)
      (ap (λ m. some (wrote m, (sent ++ e ∷ es, now))) (omega (arith, offered))
        ∙ ap (λ l. some (wrote (length e), (sent ++ e ∷ es, l))) kernel)
