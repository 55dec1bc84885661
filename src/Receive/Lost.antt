-- ===== src/Receive/Lost.antt =====
-- The pieces of a body that the source misplaces or loses.
use acached.Prelude.{
  ℕ, ◌+◌, ◌-◌, ◌^◌, ◌≤◌, ◌<◌, ◌≡◌, refl, ap, ◌∙◌, subst, List, [], false, none, some, ◌==◌, length,
  take, arith,
}
use acached.Conn.{aconn_iov_req_size_init}
use acached.Receive.{Buffer, Receiver, Input, sys_error, body_read, process_data_recv}
use acached.Receive.Body.{Filled}
use acached.Receive.Start.{Waiting, Leftover, Begun, Begun-empty, Begun-start}
use acached.Receive.Pieces.{Begun-body}

body_read_failed :
    (input : Input) (offset len : ℕ) (r : Receiver)
    → input.available ≡ none
    → 0 < len
    → body_read input offset len r ≡ (none, sys_error input.errno r)
unfolding body_read
body_read_failed input offset len r e lo =
    let some_left : (len == 0) ≡ false = ground (arith, lo) in rw (e, some_left) refl

-- The connection behind a read that failed waits as if nothing had come.
Waiting-failed :
    (input : Input) (r : Receiver) (pending : List ℕ)
    → Waiting r pending
    → (b : Begun input r pending) → (r.buffers (r.iov_index + 1)).body_part ≡ false
    → r.iov_index + 1 + 1 < aconn_iov_req_size_init
    → (r.buffers (r.iov_index + 1 + 1)).iov_len ≡ 0
    → (r.buffers (r.iov_index + 1 + 1)).base_offset ≡ 0
    → Waiting (sys_error input.errno b.next) []
Waiting-failed input r pending w b clear_part hi clear_len clear_offset =
    let i = b.index in
    record {
      state = b.state ∙ w.state;
      not_begun = b.part ∙ clear_part;
      in_arrays = omega (arith, i, hi);
      clear_len = rw i (ap (λ (x : Buffer). x.iov_len) b.later ∙ clear_len);
      clear_offset = rw i (ap (λ (x : Buffer). x.base_offset) b.later ∙ clear_offset);
      flag = b.not_pending;
    }

-- When a body of at least one byte and fewer than 2 ^ 31 - 2 is waited for, part of it came with
-- its header, and the read of the rest fails, as it does when the rest has not arrived, that part
-- is lost: at the next call the socket has as many bytes as the whole body with its CR LF, and the
-- call fills a new buffer with these alone. The next two indices are clear and inside the arrays.
pub body_part_lost :
    (input input' : Input) (r : Receiver) (pending bytes : List ℕ)
    → 0 < r.cmd.datalen
    → r.cmd.datalen + 2 < 2 ^ 31
    → Waiting r pending
    → Leftover r pending
    → length pending < r.cmd.datalen + 2
    → (r.buffers (r.iov_index + 1)).body_part ≡ false
    → r.iov_index + 1 + 1 < aconn_iov_req_size_init
    → (r.buffers (r.iov_index + 1 + 1)).iov_len ≡ 0
    → (r.buffers (r.iov_index + 1 + 1)).base_offset ≡ 0
    → input.available ≡ none
    → input'.available ≡ some bytes
    → r.cmd.datalen + 2 ≤ length bytes
    → (r' : Receiver) × (r'' : Receiver) × (process_data_recv input r ≡ some (none, r'))
      × (process_data_recv input' r' ≡ some (some (r.cmd.datalen + 2), r''))
      × Filled r'' (take (r.cmd.datalen + 2) bytes)
body_part_lost input input' r pending bytes some_data small w k part clear_part hi clear_len
      clear_offset e e' enough =
    let b = Begun-start input r some_data small pending w k (omega arith) in
    let r' = sys_error input.errno b.next in
    let w' = Waiting-failed input r pending w b clear_part hi clear_len clear_offset in
    let datalen : r'.cmd.datalen ≡ r.cmd.datalen = ap (λ c. c.datalen) b.same in
    let b' = Begun-empty input' r' (omega (arith, datalen)) (omega (arith, datalen)) w' in
    let (r'', run, filled) =
      Begun-body input' r' [] bytes (omega arith) b' e' (omega (arith, datalen, enough)) in
    (
      r',
      r'',
      b.run
          ∙ ap some (
              body_read_failed input (length pending) (r.cmd.datalen + 2 - length pending) b.next e
                (omega arith)),
      run ∙ ap (λ n. some (some (n + 2), r'')) datalen,
      subst (λ n. Filled r'' (take n bytes)) (omega (arith, datalen)) filled,
    )
