-- ===== src/Receive/Body.antt =====
-- The body of a set request in its buffer: one call of `ProcessDataRecv` after another.
use acached.Prelude.{
  take_all, ℕ, zero, suc, ◌+◌, ◌-◌, ◌%◌, ◌^◌, ◌≤◌, ◌<◌, ◌≡◌, refl, sym, ap, ◌∙◌, List, [], ◌∷◌,
  ◌++◌, true, false, some, ◌==◌, ltb, leb, length, take, arith, ==_refl, length-append, length-take,
  take-append_length,
}
use acached.Conn.{body_wait, cmd_done}
use acached.Receive.{
  Buffer, Receiver, Input, update, overwrite, body_end, body_read, body_continue, receive_body,
  in_state, process_data_recv,
}

abbrev pub current : Receiver → Buffer
current r = r.buffers r.iov_index

-- The buffer has memory for the body and the CR LF behind it, and the first bytes of them, which are
-- not all.
pub record Filling (r : Receiver) (bytes : List ℕ) : Type 0 where
  pub state : r.state ≡ body_wait
  pub not_pending : r.data_pending_read ≡ 0
  pub size : (current r).alloc_size ≡ r.cmd.datalen + 2
  pub iov_len : (current r).iov_len ≡ length bytes
  pub offset : (current r).base_offset ≡ length bytes
  pub held : take (length bytes) (current r).memory ≡ bytes
  pub body_part : (current r).body_part ≡ true
  pub missing : length bytes < r.cmd.datalen + 2

-- The buffer holds all of these bytes.
pub record Filled (r : Receiver) (bytes : List ℕ) : Type 0 where
  pub state : r.state ≡ cmd_done
  pub iov_len : (current r).iov_len ≡ length bytes
  pub held : take (length bytes) (current r).memory ≡ bytes

abbrev pub with_bytes : ℕ → List ℕ → Receiver → Receiver
with_bytes offset bytes r =
    let b = current r in
    update r.iov_index
      (record b { memory = overwrite offset bytes b.memory; iov_len = b.iov_len + length bytes }) r

pub body_read_bytes :
    (input : Input) (offset len : ℕ) (r : Receiver) (bytes : List ℕ)
    → input.available ≡ some bytes
    → 0 < len
    → 0 < length bytes
    → body_read input offset len r ≡ body_end (with_bytes offset (take len bytes) r)
unfolding body_read
body_read_bytes input offset zero r bytes e lo some_read = absurd (omega arith)
body_read_bytes input offset (suc l) r [] e lo some_read = absurd (omega arith)
body_read_bytes input offset (suc l) r (b ∷ bs) e lo some_read =
    let some_left : (suc l == 0) ≡ false = ground arith in rw (e, some_left) refl

-- The bytes before the offset and those that are read there.
pub held-overwrite :
    (before bytes memory : List ℕ)
    → take (length before) memory ≡ before
    → take (length (before ++ bytes)) (overwrite (length before) bytes memory) ≡ before ++ bytes
held-overwrite before bytes memory e = rw e (take-append_length (before ++ bytes) _)

pub body_end-Filled :
    (r : Receiver) (bytes : List ℕ)
    → (current r).iov_len ≡ length bytes
    → (current r).alloc_size ≤ length bytes
    → take (length bytes) (current r).memory ≡ bytes
    → (r' : Receiver) × (body_end r ≡ (some (length bytes), r')) × Filled r' bytes
unfolding body_end update
body_end-Filled r bytes n full held =
    let k : ltb (current r).iov_len (current r).alloc_size ≡ false = ground (arith, n, full) in
    rw (k, n)
      (
        _,
        refl,
        record {
          state = refl;
          iov_len = rw (==_refl r.iov_index) refl;
          held = rw (==_refl r.iov_index) held;
        },
      )

pub body_end-Filling :
    (r : Receiver) (bytes : List ℕ)
    → (current r).iov_len ≡ length bytes
    → (current r).base_offset ≡ 0
    → (current r).alloc_size ≡ r.cmd.datalen + 2
    → (current r).alloc_size < 2 ^ 32
    → length bytes < (current r).alloc_size
    → r.data_pending_read ≡ 0
    → take (length bytes) (current r).memory ≡ bytes
    → (r' : Receiver) × (body_end r ≡ (some (length bytes), r'))
      × Filling r' bytes
      × (r'.cmd ≡ r.cmd)
unfolding body_end update
body_end-Filling r bytes n zero_offset size small part not_pending held =
    let k : ltb (current r).iov_len (current r).alloc_size ≡ true = ground (arith, n, part) in
    rw (k, n)
      (
        _,
        refl,
        record {
          state = refl;
          not_pending = not_pending;
          size = rw (==_refl r.iov_index) size;
          iov_len = rw (==_refl r.iov_index) refl;
          offset = rw (==_refl r.iov_index) (omega (arith, zero_offset, small, part));
          held = rw (==_refl r.iov_index) held;
          body_part = rw (==_refl r.iov_index) refl;
          missing = omega (arith, part, size);
        },
        refl,
      )

-- The connection behind a call that leaves the buffer in part.
abbrev pub partly : Receiver → Receiver
partly r =
    let b = current r in
    update r.iov_index
      (record b { base_offset = (b.base_offset + b.iov_len) % 2 ^ 32; body_part = true })
      (record r { state = body_wait })

pub body_end_part :
    (r : Receiver)
    → ltb (current r).iov_len (current r).alloc_size ≡ true
    → body_end r ≡ (some (current r).iov_len, partly r)
unfolding body_end
body_end_part r e = rw e refl

-- A read that brings all that is missing, behind the bytes that are held.
pub body_read-Filled :
    (input : Input) (r : Receiver) (held bytes : List ℕ) (len : ℕ)
    → input.available ≡ some bytes
    → 0 < len
    → len ≤ length bytes
    → (current r).iov_len ≡ length held
    → (current r).alloc_size ≡ length held + len
    → take (length held) (current r).memory ≡ held
    → (r' : Receiver) × (body_read input (length held) len r ≡ (some (length held + len), r'))
      × Filled r' (held ++ take len bytes)
unfolding update
body_read-Filled input r held bytes len e lo enough n size k =
    let taken : length (take len bytes) ≡ len = omega (arith, length-take len bytes) in
    let total : length (held ++ take len bytes) ≡ length held + len =
      omega (arith, length-append held (take len bytes)) in
    let next = with_bytes (length held) (take len bytes) r in
    let (r', run, filled) =
      body_end-Filled next (held ++ take len bytes)
        (rw (==_refl r.iov_index) (omega (arith, n, taken, total)))
        (rw (==_refl r.iov_index) (omega (arith, size, total)))
        (rw (==_refl r.iov_index) (held-overwrite held (take len bytes) (current r).memory k)) in
    (
      r',
      body_read_bytes input (length held) len r bytes e lo (omega arith)
          ∙ run
          ∙ ap (λ t. (some t, r')) total,
      filled,
    )

pub process_body :
    (input : Input) (r : Receiver)
    → r.state ≡ body_wait
    → process_data_recv input r ≡ receive_body input r
unfolding process_data_recv in_state
process_body input r s = ap (λ st. in_state st input r) s

pub continue_body :
    (input : Input) (r : Receiver)
    → (r.cmd.datalen == 0) ≡ false
    → (current r).body_part ≡ true
    → receive_body input r ≡ body_continue input r
unfolding receive_body
continue_body input r some_data part = rw (some_data, part) refl

body_continue_raw :
    (input : Input) (r : Receiver)
    → let len = (r.cmd.datalen + 2 + 2 ^ 32 - (current r).base_offset) % 2 ^ 32 in
      (r.data_pending_read == 0) ≡ true
      → leb (2 ^ 31) len ≡ false
      → body_continue input r ≡ some (body_read input (current r).base_offset len r)
unfolding body_continue
body_continue_raw input r pending range = rw (pending, range) refl

-- A call that finds part of the body in its buffer reads on behind it.
pub continue_read :
    (input : Input) (r : Receiver) (held : List ℕ)
    → 0 < r.cmd.datalen
    → r.cmd.datalen + 2 < 2 ^ 31
    → Filling r held
    → process_data_recv input r
      ≡ some (body_read input (length held) (r.cmd.datalen + 2 - length held) r)
continue_read input r held some_data small f =
    let m = f.missing in
    let o = f.offset in
    let q = f.not_pending in
    let len : (r.cmd.datalen + 2 + 2 ^ 32 - (current r).base_offset) % 2 ^ 32
        ≡ r.cmd.datalen + 2 - length held =
      omega arith in
    process_body input r f.state
    ∙ continue_body input r (ground arith) f.body_part
    ∙ body_continue_raw input r (ground arith) (ground arith)
    ∙ ap (λ n. some (body_read input (current r).base_offset n r)) len
    ∙ ap (λ n. some (body_read input n (r.cmd.datalen + 2 - length held) r)) o

-- A read that brings some of what is missing.
pub body_read-Filling :
    (input : Input) (r : Receiver) (held bytes : List ℕ) (len : ℕ)
    → input.available ≡ some bytes
    → 0 < length bytes
    → length bytes < len
    → (current r).iov_len ≡ length held
    → (current r).base_offset ≡ 0
    → (current r).alloc_size ≡ length held + len
    → length held + len ≡ r.cmd.datalen + 2
    → length held + len < 2 ^ 32
    → r.data_pending_read ≡ 0
    → take (length held) (current r).memory ≡ held
    → (r' : Receiver) × (body_read input (length held) len r ≡ (some (length (held ++ bytes)), r'))
      × Filling r' (held ++ bytes)
      × (r'.cmd ≡ r.cmd)
unfolding update
body_read-Filling input r held bytes len e lo part n o size whole small q k =
    let total = length-append held bytes in
    let next = with_bytes (length held) bytes r in
    let (r', run, filling, same) =
      body_end-Filling next (held ++ bytes) (rw (==_refl r.iov_index) (omega (arith, n, total)))
        (rw (==_refl r.iov_index) o) (rw (==_refl r.iov_index) (omega (arith, size, whole)))
        (rw (==_refl r.iov_index) (omega (arith, size, small)))
        (rw (==_refl r.iov_index) (omega (arith, size, part, total))) q
        (rw (==_refl r.iov_index) (held-overwrite held bytes (current r).memory k)) in
    (
      r',
      body_read_bytes input (length held) len r bytes e (omega arith) lo
          ∙ ap (λ t. body_end (with_bytes (length held) t r)) (take_all len bytes (omega arith))
          ∙ run,
      filling,
      same,
    )

-- When a body of at least one byte, below 2 ^ 31 - 2, has its first bytes in the buffer and the socket
-- has at least the missing ones, the next call returns the length with the CR LF, ends the command,
-- and the buffer holds the first bytes followed by the missing ones, whatever else the socket has.
pub process_data_recv-Filled :
    (input : Input) (r : Receiver) (held bytes : List ℕ)
    → 0 < r.cmd.datalen
    → r.cmd.datalen + 2 < 2 ^ 31
    → Filling r held
    → input.available ≡ some bytes
    → let missing = r.cmd.datalen + 2 - length held in
      missing ≤ length bytes
      → (r' : Receiver) × (process_data_recv input r ≡ some (some (r.cmd.datalen + 2), r'))
        × Filled r' (held ++ take missing bytes)
process_data_recv-Filled input r held bytes some_data small f e enough =
    let m = f.missing in
    let missing = r.cmd.datalen + 2 - length held in
    let total : length held + missing ≡ r.cmd.datalen + 2 = omega arith in
    let (r', run, filled) =
      body_read-Filled input r held bytes missing e (omega arith) enough f.iov_len
        (f.size ∙ sym total) f.held in
    (
      r',
      continue_read input r held some_data small f
          ∙ ap some run
          ∙ ap (λ t. some (some t, r')) total,
      filled,
    )
