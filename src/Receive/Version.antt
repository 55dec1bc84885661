-- ===== src/Receive/Version.antt =====
-- The call of `ProcessDataRecv` that reads a version line and more behind it.
use mathlib.Core.List.{append_assoc}
use acached.Prelude.{
  take_all, ℕ, ◌+◌, ◌%◌, ◌^◌, ◌≤◌, ◌≡◌, refl, ap, ◌∙◌, List, [], ◌∷◌, ◌++◌, true, false, Option,
  none, some, ◌==◌, ltb, length, take, drop, arith, ==_refl, length-append, Bool-cases, inl, inr,
}
use acached.Conn.{cmd_wait, cmd_done}
use acached.Parse.Command.{version, quit, selected, set_command_type}
use acached.Parse.Command.Keywords.{version_keyword, set_command_type-spelling}
use acached.Parse.Line.{is_buffer_complete}
use acached.Parse.Line.Ends.{contains, is_buffer_complete-ended}
use acached.Receive.{
  Receiver, Input, in_state, header_done, update, cmd_wait_init, write_data, header_complete,
  header_read, receive_header, process_data_recv,
}

pub in_cmd_wait :
    (input : Input) (r : Receiver)
    → r.state ≡ cmd_wait
    → process_data_recv input r ≡ receive_header input r
unfolding process_data_recv in_state
in_cmd_wait input r e = ap (λ s. in_state s input r) e

abbrev pub version_line : List ℕ → List ℕ
version_line more = b'v' ∷ b'e' ∷ b'r' ∷ b's' ∷ b'i' ∷ b'o' ∷ b'n' ∷ more

-- The bytes that a read takes, with a version line and at least one more byte.
module _ (more rest : List ℕ) (x : ℕ) where
  abbrev pub bytes : List ℕ
  bytes = version_line more ++ b'\r' ∷ b'\n' ∷ x ∷ rest

  memory_lem :
      (behind : List ℕ)
      → bytes ++ behind ≡ version_line more ++ b'\r' ∷ b'\n' ∷ ((x ∷ rest) ++ behind)
  memory_lem behind = append_assoc (version_line more) (b'\r' ∷ b'\n' ∷ x ∷ rest) behind

  pub length-bytes : length bytes ≡ length more + 10 + length rest
  length-bytes = omega (arith, length-append more (b'\r' ∷ b'\n' ∷ x ∷ rest))

  recognized :
      (behind : List ℕ)
      → set_command_type (length bytes) (bytes ++ behind) ≡ some (selected quit version)
  recognized behind =
      let same : length bytes ≡ 0 + length bytes = omega arith in
      ap (λ n. set_command_type n (bytes ++ behind)) same
      ∙ set_command_type-spelling version_keyword [] ((more ++ b'\r' ∷ b'\n' ∷ x ∷ rest) ++ behind)
          (length bytes) tt (omega (arith, length-bytes))

  complete :
      (behind : List ℕ)
      → contains b'\r' more ≡ false
      → length bytes ≤ cmd_wait_init
      → is_buffer_complete (length bytes) (bytes ++ behind)
        ≡ some record {
          found = (length (version_line more) + 2) % 2 ^ 32;
          memory = version_line more ++ 0 ∷ 0 ∷ ((x ∷ rest) ++ behind);
        }
  unfolding contains
  complete behind h le =
      ap (is_buffer_complete (length bytes)) (memory_lem behind)
      ∙ is_buffer_complete-ended (length bytes) (version_line more) ((x ∷ rest) ++ behind) h
          (omega (arith, length-bytes)) (omega (arith, le))

  -- What the header's buffer and the connection are like behind the line.
  pub record Came (r' : Receiver) : Type 0 where
    pub ctype : r'.cmd.ctype ≡ version
    pub state : r'.state ≡ cmd_done
    pub pending : r'.data_pending_read ≡ 1

  abbrev pub found : ℕ
  found = (length (version_line more) + 2) % 2 ^ 32

  pub some_found : length bytes ≤ cmd_wait_init → (found == 0) ≡ false
  some_found le = ground (arith, length-bytes, le)

  -- The command is known, and its line is in the buffer.
  abbrev with_line : List ℕ → Receiver → Receiver
  with_line behind r =
      let b = record (r.buffers r.iov_index) {
        memory = version_line more ++ 0 ∷ 0 ∷ ((x ∷ rest) ++ behind);
        iov_len = length bytes;
      } in
      record (update r.iov_index b r) { cmd = record r.cmd { ctype = version } }

  header_done-Came :
      (sent : Option ℕ) (r : Receiver)
      → r.cmd.ctype ≡ version
      → ltb found (r.buffers r.iov_index).iov_len ≡ true
      → Came (header_done found (write_data sent r).1).1
  unfolding write_data update
  header_done-Came none r e behind = record {
    ctype = rw behind e;
    state = rw behind refl;
    pending = rw behind refl;
  }
  header_done-Came (some n) r e behind = elim (Bool-cases (n == 0)) [
    | inl hung_up ↦ record {
      ctype = rw (hung_up, behind) e;
      state = rw (hung_up, behind) refl;
      pending = rw (hung_up, behind) refl;
    }
    | inr some_bytes ↦ record {
      ctype = rw (some_bytes, behind) e;
      state = rw (some_bytes, behind) refl;
      pending = rw (some_bytes, behind) refl;
    }
  ]

  completed_line :
      (input : Input) (behind : List ℕ) (r : Receiver)
      → length bytes ≤ cmd_wait_init
      → (r' : Receiver) × (header_complete input found (with_line behind r) ≡ some (some found, r'))
        × Came r'
  unfolding header_complete update
  completed_line input behind r le = (
    _,
    refl,
    header_done-Came input.sent _ refl
        (rw (==_refl r.iov_index) (ground (arith, le, length-bytes))),
  )

  version_read :
      (input : Input) (r : Receiver)
      → contains b'\r' more ≡ false
      → length bytes ≤ cmd_wait_init
      → (r.buffers r.iov_index).iov_len ≡ 0
      → (r' : Receiver) × (header_read input bytes r ≡ some (some found, r')) × Came r'
  unfolding header_read
  version_read input r h le clear_len =
      let behind = drop (0 + length bytes) (r.buffers r.iov_index).memory in
      let len : (r.buffers r.iov_index).iov_len + length bytes ≡ length bytes =
        omega (arith, clear_len) in
      let (r', run, came) = completed_line input behind r le in
      (
        r',
        rw (header_read, len, recognized behind, len, complete behind h le, some_found le, len) run,
        came,
      )

  pub received_version :
      (input : Input) (r : Receiver)
      → r.state ≡ cmd_wait
      → contains b'\r' more ≡ false
      → length bytes ≤ cmd_wait_init
      → (r.buffers r.iov_index).iov_len ≡ 0
      → input.available ≡ some bytes
      → (r' : Receiver) × (process_data_recv input r ≡ some (some found, r')) × Came r'
  unfolding receive_header update version_read completed_line
  received_version input r state h le clear_len taken =
      let b = record (r.buffers r.iov_index) { alloc_size = cmd_wait_init; memory = input.fresh } in
      let (r', run, came) =
        version_read input (update r.iov_index b r) h le (rw (==_refl r.iov_index) clear_len) in
      let whole : take cmd_wait_init bytes ≡ bytes = take_all cmd_wait_init bytes le in
      (r', in_cmd_wait input r state ∙ rw (receive_header, taken, whole) run, came)
