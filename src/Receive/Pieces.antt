-- ===== src/Receive/Pieces.antt =====
-- A body that arrives in pieces, and the pieces that the source loses or misplaces.
use acached.Prelude.{
  ℕ, ◌+◌, ◌-◌, ◌^◌, ◌≤◌, ◌<◌, ◌≡◌, sym, ap, ◌∙◌, subst, List, ◌++◌, some, length, take, arith,
}
use acached.Receive.{Receiver, Input, process_data_recv}
use acached.Receive.Body.{
  Filling, Filled, body_read-Filled, body_read-Filling, process_data_recv-Filled,
}
use acached.Receive.Start.{Waiting, Leftover, Begun, Begun-start}

pub Begun-body :
    (input : Input) (r : Receiver) (pending bytes : List ℕ)
    → length pending < r.cmd.datalen + 2
    → Begun input r pending
    → input.available ≡ some bytes
    → let missing = r.cmd.datalen + 2 - length pending in
      missing ≤ length bytes
      → (r' : Receiver) × (process_data_recv input r ≡ some (some (r.cmd.datalen + 2), r'))
        × Filled r' (pending ++ take missing bytes)
Begun-body input r pending bytes part b e enough =
    let missing = r.cmd.datalen + 2 - length pending in
    let total : length pending + missing ≡ r.cmd.datalen + 2 = omega arith in
    let (r', run, filled) =
      body_read-Filled input b.next pending bytes missing e (omega arith) enough b.iov_len
        (b.alloc_size ∙ sym total) b.held in
    (r', b.run ∙ ap some run ∙ ap (λ t. some (some t, r')) total, filled)

Begun-Filling :
    (input : Input) (r : Receiver) (pending bytes : List ℕ)
    → r.cmd.datalen + 2 < 2 ^ 31
    → Begun input r pending
    → input.available ≡ some bytes
    → 0 < length bytes
    → length pending + length bytes < r.cmd.datalen + 2
    → (r' : Receiver) × (process_data_recv input r ≡ some (some (length (pending ++ bytes)), r'))
      × Filling r' (pending ++ bytes)
      × (r'.cmd ≡ r.cmd)
Begun-Filling input r pending bytes small b e lo part =
    let missing = r.cmd.datalen + 2 - length pending in
    let total : length pending + missing ≡ r.cmd.datalen + 2 = omega arith in
    let (r', run, filling, same) =
      body_read-Filling input b.next pending bytes missing e lo (omega arith) b.iov_len
        b.base_offset (b.alloc_size ∙ sym total) (total ∙ ap (λ c. c.datalen + 2) (sym b.same))
        (omega arith) b.not_pending b.held in
    (r', b.run ∙ ap some run, filling, same ∙ b.same)

-- When a body of at least one byte is waited for, with the bytes in the header's buffer that came
-- with the header and do not complete it, and the next index is clear and inside the arrays, and the
-- socket has at least the missing bytes: one call ends the command with the pending bytes
-- followed by the missing ones, the CR LF included, in a buffer of its own.
pub body_in_one :
    (input : Input) (r : Receiver) (pending bytes : List ℕ)
    → 0 < r.cmd.datalen
    → r.cmd.datalen + 2 < 2 ^ 31
    → Waiting r pending
    → Leftover r pending
    → length pending < r.cmd.datalen + 2
    → input.available ≡ some bytes
    → let missing = r.cmd.datalen + 2 - length pending in
      missing ≤ length bytes
      → (r' : Receiver) × (process_data_recv input r ≡ some (some (r.cmd.datalen + 2), r'))
        × Filled r' (pending ++ take missing bytes)
body_in_one input r pending bytes some_data small w k part =
    Begun-body input r pending bytes part
      (Begun-start input r some_data small pending w k (omega arith))

-- When a body of at least one byte and fewer than 2 ^ 31 - 2 is waited for, with the bytes of it
-- that came with the header in the header's buffer, and the next index is clear and inside the
-- arrays; and the first of two reads brings some bytes but not all that are missing, and the socket
-- has at least the others at the second: two calls end the command with a buffer that holds the
-- pending bytes, those of the first read and the missing ones of the second, in order.
pub body_in_two :
    (input input' : Input) (r : Receiver) (pending bytes bytes' : List ℕ)
    → 0 < r.cmd.datalen
    → r.cmd.datalen + 2 < 2 ^ 31
    → Waiting r pending
    → Leftover r pending
    → input.available ≡ some bytes
    → 0 < length bytes
    → length pending + length bytes < r.cmd.datalen + 2
    → input'.available ≡ some bytes'
    → let missing = r.cmd.datalen + 2 - length (pending ++ bytes) in
      missing ≤ length bytes'
      → (r' : Receiver) × (r'' : Receiver) × (process_data_recv input r
          ≡ some (some (length (pending ++ bytes)), r'))
        × (process_data_recv input' r' ≡ some (some (r.cmd.datalen + 2), r''))
        × Filled r'' ((pending ++ bytes) ++ take missing bytes')
body_in_two input input' r pending bytes bytes' some_data small w k e lo part e' enough =
    let b = Begun-start input r some_data small pending w k (omega arith) in
    let (r', run, filling, same) = Begun-Filling input r pending bytes small b e lo part in
    let datalen : r'.cmd.datalen ≡ r.cmd.datalen = ap (λ c. c.datalen) same in
    let (r'', run', filled) =
      process_data_recv-Filled input' r' (pending ++ bytes) bytes' (omega (arith, datalen))
        (omega (arith, datalen)) filling e' (omega (arith, datalen, enough)) in
    (
      r',
      r'',
      run,
      run' ∙ ap (λ n. some (some (n + 2), r'')) datalen,
      subst
          (λ n. Filled r'' ((pending ++ bytes) ++ take (n + 2 - length (pending ++ bytes)) bytes'))
          datalen filled,
    )
