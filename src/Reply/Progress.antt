-- ===== src/Reply/Progress.antt =====
-- What one call of `WriteIOVReply` does to the bytes that wait to be sent.
use acached.Atomic.{compare_and_swap}
use acached.Prelude.{
  ℕ, ◌≤◌, ◌<◌, ◌^◌, ◌≡◌, refl, ap, ◌∙◌, List, ◌++◌, some, ◌==◌, ltb, true, false, ==_refl,
  if◌then◌else◌, length, drop, arith,
}
use acached.Reply.{
  Iovec, Send, took, closed, interrupted, error, wrote, gave_zero, gave_error, Writer, iov_max,
  send_loop, conclude, advance, write_iov_reply, check_iov_total_written,
}
use acached.Reply.{stream, size}
use acached.Reply.Written.{check_iov_total_written-Continues}

-- The bytes from the first entry on that is not yet sent.
abbrev pub pending : Writer → List ℕ
pending w = stream (drop w.windexlast w.iovec)

module _ (sent entries tail : Iovec) where
  abbrev writer : ℕ → Writer
  writer flag = record {
    iovec = sent ++ (entries ++ tail);
    windexlast = length sent;
    writingflag = flag;
  }

  -- What a call leaves when the kernel took `n` bytes.
  pub record Wrote (n : ℕ) (w : Writer) : Type 0 where
    pub rest : pending w ≡ drop n (stream (entries ++ tail))
    pub onward : length sent ≤ w.windexlast
    pub clear : w.writingflag ≡ 0

  conclude-Wrote :
      (n : ℕ)
      → 0 < n
      → n ≤ size entries
      → size entries < 2 ^ 32
      → (w : Writer) × (conclude (length sent) (length entries) (took n) (writer 1)
          ≡ some (wrote n, w))
        × Wrote n w
  unfolding conclude advance compare_and_swap
  conclude-Wrote n lo le hi =
      let c =
        check_iov_total_written (sent ++ (entries ++ tail)) (length sent) (length entries) n in
      let k = check_iov_total_written-Continues sent entries tail n lo le hi in
      let some_bytes : (n == 0) ≡ false = ground arith in
      let here : (length sent == length sent) ≡ true = ==_refl (length sent) in
      (
        record { iovec = c.iovec; windexlast = k.next; writingflag = 0 },
        rw (some_bytes, advance, k.iov_end, here) refl,
        record { rest = k.rest; onward = k.after_start; clear = refl },
      )

  -- What a call returns and leaves, by the kernel's first answer that is not an interruption.
  abbrev pub Outcomes : List Send → ℕ → Send → Type 0
  Outcomes sends count (took n) =
      (w : Writer) × (write_iov_reply sends (length sent) count (writer 0) ≡ some (wrote n, w))
      × Wrote n w
  Outcomes sends count closed =
      write_iov_reply sends (length sent) count (writer 0) ≡ some (gave_zero, writer 0)
  Outcomes sends count interrupted = ⊥
  Outcomes sends count error =
      write_iov_reply sends (length sent) count (writer 0) ≡ some (gave_error, writer 0)

  abbrev pub Accepts : Send → Type 0
  Accepts (took n) = (0 < n) × (n ≤ size entries)
  Accepts interrupted = ⊥
  Accepts _ = Unit {0}

  -- On a connection that no thread is writing to, with `windexlast` at the first offered entry and
  -- fewer than 2 ^ 32 bytes offered, let the kernel's answer, after any number of interrupted
  -- calls, be a number of bytes between one and all that were offered, 0, or an error. After 0 or
  -- an error the call says so and the connection is as it was. Otherwise it returns the number, the
  -- bytes that wait from `windexlast` on are those that the kernel has not taken, in order, and the
  -- writing flag is clear again.
  pub write_iov_reply-Outcomes :
      (sends : List Send) (count : ℕ) (answer : Send)
      → send_loop sends ≡ some answer
      → Accepts answer
      → size entries < 2 ^ 32
      → (if ltb iov_max count then iov_max else count) ≡ length entries
      → Outcomes sends count answer
  unfolding write_iov_reply conclude compare_and_swap
  write_iov_reply-Outcomes sends count (took n) run (lo, le) hi e =
      let (w, p, kept) = conclude-Wrote n lo le hi in
      (w, rw run (ap (λ m. conclude (length sent) m (took n) (writer 1)) e ∙ p), kept)
  write_iov_reply-Outcomes sends count closed run a hi e = rw run refl
  write_iov_reply-Outcomes sends count interrupted run a hi e = a
  write_iov_reply-Outcomes sends count error run a hi e = rw run refl
