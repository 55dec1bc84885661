-- ===== src/Tests/Reply.antt =====
-- A table of four entries: the first is sent, the next two are offered to the kernel.
use acached.Prelude.{◌≡◌, refl, true, List, [], ◌∷◌, some, arith}
use acached.Reply.{
  Iovec, total_loop, settle, interrupted, took, wrote, send_loop, write_iov_reply, Writer,
  check_iov_total_written,
}
use acached.Reply.Written.{Continues, check_iov_total_written-Continues}
use acached.Reply.Once.{
  Sending, Attempt, room, would_block, writable, write_all_once, select_loop,
  wait_for_io_or_timeout,
}
use acached.Reply.Once.Delivery.{Delivered, write_all_once-Delivered}
use acached.Reply.Once.Ends.{write_all_once-Ends}
use acached.Reply.Progress.{Wrote, write_iov_reply-Outcomes}

abbrev entries : Iovec
entries = (2 ∷ 3 ∷ []) ∷ (4 ∷ 5 ∷ 6 ∷ []) ∷ []

abbrev all : Iovec
all = (1 ∷ []) ∷ (2 ∷ 3 ∷ []) ∷ (4 ∷ 5 ∷ 6 ∷ []) ∷ (7 ∷ []) ∷ []

check_iov_total_written-Continues_example :
    Continues ((1 ∷ []) ∷ []) entries ((7 ∷ []) ∷ []) 4 (check_iov_total_written all 1 2 4)
check_iov_total_written-Continues_example =
    check_iov_total_written-Continues ((1 ∷ []) ∷ []) entries ((7 ∷ []) ∷ []) 4 (omega arith)
      (omega arith) (omega arith)

write_iov_reply-Outcomes_example :
    (w : Writer) × (write_iov_reply
        (interrupted ∷ took 4 ∷ [])
        1
        2
        (record { iovec = all; windexlast = 1; writingflag = 0 })
      ≡ some (wrote 4, w))
    × Wrote ((1 ∷ []) ∷ []) entries ((7 ∷ []) ∷ []) 4 w
unfolding send_loop
write_iov_reply-Outcomes_example =
    write_iov_reply-Outcomes ((1 ∷ []) ∷ []) entries ((7 ∷ []) ∷ []) (interrupted ∷ took 4 ∷ []) 2
      (took 4) refl (omega arith, omega arith) (omega arith) refl

abbrev attempts : List Attempt
attempts = room 3 ∷ would_block ((writable ∷ []) ∷ []) ∷ room 100 ∷ []

write_all_once-Delivered_example :
    Delivered all 1 6
      ((1 ∷ []) ∷ (2 ∷ 3 ∷ []) ∷ (5 ∷ 6 ∷ []) ∷ (7 ∷ []) ∷ [])
      (2 ∷ 3 ∷ 4 ∷ 5 ∷ 6 ∷ 7 ∷ [])
unfolding write_all_once total_loop settle
write_all_once-Delivered_example =
    write_all_once-Delivered attempts 1 2 6 all _ _ (omega arith) (omega arith) refl

write_all_once-Ends_example :
    (r : Sending) × (write_all_once
        (room 1 ∷ would_block ((writable ∷ []) ∷ []) ∷ room 1 ∷ room 1 ∷ [])
        2
        2
        ((1 ∷ []) ∷ [] ∷ (4 ∷ 5 ∷ []) ∷ [])
      ≡ some r)
unfolding select_loop wait_for_io_or_timeout
write_all_once-Ends_example =
    write_all_once-Ends (room 1 ∷ would_block ((writable ∷ []) ∷ []) ∷ room 1 ∷ room 1 ∷ []) 2 2
      ((1 ∷ []) ∷ [] ∷ (4 ∷ 5 ∷ []) ∷ [])
      (omega arith, ((true, refl), (omega arith, (omega arith, tt)))) (omega arith) (omega arith)
      (omega arith)
