-- ===== src/Receive/Misplaced.antt =====
-- Where the next piece of a body goes after two reads, and after too many pending bytes.
use acached.Prelude.{
  take_all, ℕ, ◌+◌, ◌-◌, ◌*◌, ◌^◌, ◌<◌, ◌≡◌, refl, ap, ◌∙◌, List, [], ◌∷◌, true, false, none, some,
  ◌==◌, ltb, leb, if◌then◌else◌, length, arith, ==_refl,
}
use acached.Conn.{body_wait}
use acached.Receive.{
  Receiver, Input, update, body_end, body_read, body_continue, copy_pending, copied, copied_more,
  opened, pending_bytes, process_data_recv,
}
use acached.Receive.Body.{
  current, Filling, with_bytes, continue_read, continue_body, body_read_bytes, body_end_part,
  partly, process_body,
}
use acached.Receive.Start.{Waiting, Leftover, start_body, body_start_pending, guard}

-- A body in its buffer with this length and this offset for the next read.
pub record Partly (r : Receiver) (len at : ℕ) : Type 0 where
  pub state : r.state ≡ body_wait
  pub body_part : (current r).body_part ≡ true
  pub iov_len : (current r).iov_len ≡ len
  pub offset : (current r).base_offset ≡ at

-- When the buffer holds the first bytes of a body of at least one byte and fewer than 2 ^ 31 - 2,
-- from one read, and another read brings some more that do not complete it, the next read is to go
-- behind twice the first bytes and these, although only the first bytes and these are in the
-- buffer.
pub third_read_misplaced :
    (input : Input) (r : Receiver) (held bytes : List ℕ)
    → 0 < r.cmd.datalen
    → r.cmd.datalen + 2 < 2 ^ 31
    → Filling r held
    → input.available ≡ some bytes
    → 0 < length bytes
    → length held + length bytes < r.cmd.datalen + 2
    → (r' : Receiver) × (process_data_recv input r ≡ some (some (length held + length bytes), r'))
      × Partly r' (length held + length bytes) (2 * length held + length bytes)
unfolding update
third_read_misplaced input r held bytes some_data small f e lo part =
    let missing = r.cmd.datalen + 2 - length held in
    let next = with_bytes (length held) bytes r in
    let n = f.iov_len in
    let o = f.offset in
    let s = f.size in
    let iov_len : (current next).iov_len ≡ length held + length bytes =
      rw (==_refl r.iov_index) (omega arith) in
    let in_part : ltb (current next).iov_len (current next).alloc_size ≡ true =
      rw (==_refl r.iov_index) (ground (arith, n, s, part)) in
    (
      partly next,
      continue_read input r held some_data small f
          ∙ ap some (
              body_read_bytes input (length held) missing r bytes e (omega arith) lo
              ∙ ap (λ t. body_end (with_bytes (length held) t r))
                  (take_all missing bytes (omega arith))
              ∙ body_end_part next in_part)
          ∙ ap (λ k. some (some k, partly next)) iov_len,
      record {
        state = refl;
        body_part = rw (==_refl r.iov_index) refl;
        iov_len = rw (==_refl r.iov_index) (omega arith);
        offset = rw (==_refl r.iov_index) (omega arith);
      },
    )

body_read_nothing :
    (input : Input) (offset len : ℕ) (r : Receiver)
    → len ≡ 0
    → body_read input offset len r ≡ body_end r
unfolding body_read
body_read_nothing input offset len r e = rw e refl

copy_pending_more :
    (input : Input) (src pending : ℕ) (r : Receiver)
    → (current r).alloc_size < pending
    → copy_pending input src pending r ≡ body_end (copied_more src (current r).alloc_size r)
unfolding copy_pending
copy_pending_more input src pending r more =
    let size = (current r).alloc_size in
    let ret : (if leb size pending then size else pending) ≡ size = ground (arith, more) in
    let is_more : ltb size pending ≡ true = ground (arith, more) in
    ap (λ n. body_read input n (size - n) (copied (ltb size pending) src n r)) ret
    ∙ ap (λ b. body_read input size (size - size) (copied b src size r)) is_more
    ∙ body_read_nothing input size (size - size) (copied_more src size r) (omega arith)

body_continue_stuck :
    (input : Input) (r : Receiver)
    → (r.data_pending_read == 0) ≡ false
    → body_continue input r ≡ none
unfolding body_continue
body_continue_stuck input r flag = rw flag refl

-- When a body of at least one byte and fewer than 2 ^ 31 - 2 is waited for, the next index is clear
-- and inside the arrays, and more bytes came with the header than the body and its CR LF have, as
-- they do when the client sends its next request at once: the call for the body returns 0, and the
-- one behind it copies from an index that was never set, whatever is read.
pub more_pending_undefined :
    (input input' : Input) (r : Receiver) (pending : List ℕ)
    → 0 < r.cmd.datalen
    → r.cmd.datalen + 2 < 2 ^ 31
    → Waiting r pending
    → Leftover r pending
    → r.cmd.datalen + 2 < length pending
    → (r' : Receiver) × (process_data_recv input r ≡ some (some 0, r'))
      × (process_data_recv input' r' ≡ none)
unfolding update
more_pending_undefined input input' r [] some_data small w k more = absurd (omega arith)
more_pending_undefined input input' r (p ∷ ps) some_data small w k more =
    let src = r.iov_index in
    let len = k.iov_len in
    let hi = k.small in
    let flag : r.data_pending_read ≡ 1 = ground (arith, w.flag) in
    let count : pending_bytes r ≡ length (p ∷ ps) = omega arith in
    let other : (src + 1 == src) ≡ false = ground arith in
    let self = ==_refl (src + 1) in
    let size : (current (opened input r)).alloc_size ≡ r.cmd.datalen + 2 = rw self (omega arith) in
    let next = copied_more src (current (opened input r)).alloc_size (opened input r) in
    let empty : (current next).iov_len ≡ 0 = rw (other, self) w.clear_len in
    let room : (current next).alloc_size ≡ r.cmd.datalen + 2 = rw (other, self) (omega arith) in
    let in_part : ltb (current next).iov_len (current next).alloc_size ≡ true =
      ground (arith, empty, room) in
    let nonzero : (r.cmd.datalen == 0) ≡ false = ground arith in
    (
      partly next,
      process_body input r w.state
          ∙ start_body input r nonzero w.not_begun
          ∙ body_start_pending input r (guard input r some_data small w.in_arrays)
              (ground (arith, flag))
          ∙ ap (λ n. some (copy_pending input src n (opened input r))) count
          ∙ ap some (
              copy_pending_more input src (length (p ∷ ps)) (opened input r)
                (omega (arith, size, more))
              ∙ body_end_part next in_part)
          ∙ ap (λ n. some (some n, partly next)) empty,
      process_body input' (partly next) refl
          ∙ continue_body input' (partly next) nonzero (rw self refl)
          ∙ body_continue_stuck input' (partly next) (ground arith),
    )
