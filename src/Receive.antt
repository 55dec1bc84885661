-- ===== src/Receive.antt =====
-- aConnParse.cpp: `aConn::ProcessDataRecv`, and `WriteData` of aConnReply.cpp that it calls. The
-- part of the connection that these read and write is a `Receiver`. `none` is an abort, the use of a
-- variable that is not set, a read behind the memory, or an index behind the arrays.
pub mod Body
pub mod Start
pub mod Pieces
pub mod Lost
pub mod Misplaced
pub mod Version
use acached.Prelude.{
  ℕ, suc, ◌+◌, ◌-◌, ◌*◌, ◌%◌, ◌^◌, List, [], ◌∷◌, ◌++◌, Bool, true, false, ◌||◌, Option, none, some,
  ◌==◌, ltb, leb, if◌then◌else◌, length, take, drop,
}
use acached.Conn.{
  ConnState, cmd_wait, hdr_wait, body_wait, cmd_done, aerr_type_app, aerr_type_sys,
  aconn_iov_req_size_init,
}
use acached.Parse.Line.{is_buffer_complete}
use acached.Parse.Command.{CmdType, gets, set, quit, version, set_command_type}
use acached.Parse.Header.{Cmd, process_header}

-- One index of the arrays of `iovReq`, with the memory at its base and the bits of its description.
pub record Buffer : Type 0 where
  pub memory : List ℕ
  pub iov_len : ℕ
  pub base_offset : ℕ
  pub alloc_size : ℕ
  pub hdr : Bool
  pub hdr_part : Bool
  pub body : Bool
  pub body_part : Bool

pub record Receiver : Type 0 where
  pub state : ConnState
  pub cmd : Cmd
  pub buffers : ℕ → Buffer
  pub iov_index : ℕ
  pub iov_index_hdr : ℕ
  pub data_pending_read : ℕ
  pub aerrnum : ℕ
  pub aerrtype : ℕ

-- What a call meets: the contents of the memory that `malloc` gives, what `read` takes, `none` for
-- -1, the `errno` behind it, and what `send` returns.
pub record Input : Type 0 where
  pub fresh : List ℕ
  pub available : Option (List ℕ)
  pub errno : ℕ
  pub sent : Option ℕ

abbrev pub cmd_wait_init : ℕ
cmd_wait_init = 1024 * 32

abbrev pub aerr_type_sys_comm : ℕ
aerr_type_sys_comm = 103

abbrev pub aerr_tokenizer_read_err : ℕ
aerr_tokenizer_read_err = 5000

abbrev pub aerr_tokenizer_socket_hungup : ℕ
aerr_tokenizer_socket_hungup = 5001

abbrev pub aerr_tokenizer_cmd_invalid_hdr : ℕ
aerr_tokenizer_cmd_invalid_hdr = 5007

abbrev pub aerr_tokenizer_cmd_invalid_datalen : ℕ
aerr_tokenizer_cmd_invalid_datalen = 5008

-- What the call returns, `none` for -1, with the connection behind it.
abbrev pub Returns : Type 0
Returns = Option ℕ × Receiver

-- `read` of at most `len` bytes: `none` for -1.
abbrev pub read : Input → ℕ → Option (List ℕ)
read input len = elim input.available [ none ↦ none | some bytes ↦ some (take len bytes) ]

unfoldable pub update : ℕ → Buffer → Receiver → Receiver
update index b r = record r { buffers = λ i. if i == index then b else r.buffers i }

-- `memcpy` or `read` to an offset.
abbrev pub overwrite : ℕ → List ℕ → List ℕ → List ℕ
overwrite offset bytes memory = take offset memory ++ bytes ++ drop (offset + length bytes) memory

abbrev pub app_error : ℕ → Receiver → Receiver
app_error aerrnum r = record r { aerrnum = aerrnum; aerrtype = aerr_type_app }

abbrev pub sys_error : ℕ → Receiver → Receiver
sys_error errno r = record r { aerrnum = errno; aerrtype = aerr_type_sys }

abbrev comm_error : ℕ → Receiver → Receiver
comm_error aerrnum r = record r { aerrnum = aerrnum; aerrtype = aerr_type_sys_comm }

unfoldable pub write_data : Option ℕ → Receiver → Returns
write_data none r = (none, comm_error aerr_tokenizer_read_err r)
write_data (some n) r =
    if n == 0 then (none, comm_error aerr_tokenizer_socket_hungup r) else (some n, r)

-- The offset of what was read behind the header line, which ends at `found`.
abbrev pending_behind : ℕ → Receiver → Receiver
pending_behind found r =
    let b = r.buffers r.iov_index in
    if ltb found b.iov_len
    then update r.iov_index (record b { base_offset = found }) (record r { data_pending_read = 1 })
    else r

abbrev pub header_done : ℕ → Receiver → Returns
header_done found r = (some found, pending_behind found (record r { state = cmd_done }))

unfoldable pub header_complete : Input → ℕ → Receiver → Option Returns
unfolding process_header write_data update
header_complete input found r =
    let b = record (r.buffers r.iov_index) { hdr = true } in
    let r = record (update r.iov_index b r) { iov_index_hdr = r.iov_index } in
    let with_body : Option Returns = elim (process_header b.iov_len b.memory r.cmd) [
      | none ↦ none
      | some p ↦
          let r =
            update r.iov_index (record b { memory = p.memory })
              (record r { cmd = p.cmd; state = body_wait }) in
          if p.ret
          then some (some found, pending_behind found r)
          else some (none, app_error aerr_tokenizer_cmd_invalid_hdr r)
    ] in
    elim r.cmd.ctype [
      | set ↦ with_body
      | version ↦ let (_, r) = write_data input.sent r in some (header_done found r)
      | _ ↦ some (header_done found r)
    ]

abbrev pub typed : Option CmdType → Cmd → Cmd
typed none cmd = cmd
typed (some ctype) cmd = record cmd { ctype = ctype }

-- A read of `bytes`, at least one. Without the end of the line the assertions of the source fail.
unfoldable pub header_read : Input → List ℕ → Receiver → Option Returns
unfolding set_command_type is_buffer_complete header_complete update
header_read input bytes r =
    let b = r.buffers r.iov_index in
    let memory = overwrite 0 bytes b.memory in
    let iov_len = b.iov_len + length bytes in
    let with_buffer = λ (memory : List ℕ) (ctype : Option CmdType).
      record (update r.iov_index (record b { memory = memory; iov_len = iov_len }) r) {
        cmd = typed ctype r.cmd;
      } in
    elim (set_command_type iov_len memory) [
      | none ↦ none
      | some s ↦ elim s.ret [
        | none ↦ some (none, with_buffer memory s.ctype)
        | some ret ↦ elim (is_buffer_complete iov_len memory) [
          | none ↦ none
          | some c ↦
              if c.found == 0
              then none
              else header_complete input c.found (with_buffer c.memory s.ctype)
        ]
      ]
    ]

unfoldable pub receive_header : Input → Receiver → Option Returns
unfolding header_read update
receive_header input r =
    let b = record (r.buffers r.iov_index) { alloc_size = cmd_wait_init; memory = input.fresh } in
    let r = update r.iov_index b r in
    elim (read input cmd_wait_init) [
      | none ↦ some (none, sys_error input.errno r)
      | some [] ↦ some (some 0, sys_error input.errno r)
      | some (c ∷ cs) ↦ header_read input (c ∷ cs) r
    ]

-- The end of a call in `body_wait`: whether the buffer is full.
unfoldable pub body_end : Receiver → Returns
unfolding update
body_end r =
    let b = r.buffers r.iov_index in
    if ltb b.iov_len b.alloc_size
    then (
      some b.iov_len,
      update r.iov_index
          (record b { base_offset = (b.base_offset + b.iov_len) % 2 ^ 32; body_part = true })
          (record r { state = body_wait }),
    )
    else (
      some b.iov_len,
      update r.iov_index (record b { body = true }) (record r { state = cmd_done }),
    )

-- `if ( len )`, with `ptr` at `offset`.
unfoldable pub body_read : Input → ℕ → ℕ → Receiver → Returns
unfolding body_end update
body_read input offset len r =
    let b = r.buffers r.iov_index in
    let with_bytes = λ (bytes : List ℕ).
      update r.iov_index
        (record b { memory = overwrite offset bytes b.memory; iov_len = b.iov_len + length bytes })
        r in
    if len == 0 then body_end r else elim (read input len) [
      | none ↦ (none, sys_error input.errno r)
      | some [] ↦ (some 0, sys_error input.errno r)
      | some (c ∷ cs) ↦ body_end (with_bytes (c ∷ cs))
    ]

-- The `memcpy` of `ret` bytes that were read with the header.
abbrev pub filled : ℕ → ℕ → Receiver → Buffer
filled src ret r =
    let b = r.buffers r.iov_index in
    let from = r.buffers src in
    record b { memory = overwrite 0 (take ret (drop from.base_offset from.memory)) b.memory }

-- When the pending bytes are more than the buffer takes, its length is not set.
abbrev pub copied_more : ℕ → ℕ → Receiver → Receiver
copied_more src ret r =
    update src (record (r.buffers src) { base_offset = ret })
      (update r.iov_index (filled src ret r) (record r { data_pending_read = 1 }))

abbrev pub copied_all : ℕ → ℕ → Receiver → Receiver
copied_all src ret r =
    update src (record (r.buffers src) { base_offset = 0 })
      (update r.iov_index
        (record (filled src ret r) { iov_len = (r.buffers r.iov_index).iov_len + ret })
        (record r { data_pending_read = 0 }))

abbrev pub copied : Bool → ℕ → ℕ → Receiver → Receiver
copied true = copied_more
copied false = copied_all

unfoldable pub copy_pending : Input → ℕ → ℕ → Receiver → Returns
unfolding body_read update
copy_pending input src pending r =
    let size = (r.buffers r.iov_index).alloc_size in
    let ret = if leb size pending then size else pending in
    body_read input ret (size - ret) (copied (ltb size pending) src ret r)

-- The next index, with memory for the body and the CR LF.
abbrev pub opened : Input → Receiver → Receiver
opened input r =
    let index = r.iov_index + 1 in
    let size = (r.cmd.datalen + 2) % 2 ^ 32 in
    update index (record (r.buffers index) { alloc_size = size; memory = input.fresh })
      (record r { iov_index = index })

abbrev pub pending_bytes : Receiver → ℕ
pending_bytes r =
    let from = r.buffers r.iov_index in (from.iov_len + 2 ^ 32 - from.base_offset) % 2 ^ 32

-- A body that is waited for with no part of it in a buffer of its own.
unfoldable pub body_start : Input → Receiver → Option Returns
unfolding copy_pending body_read update
body_start input r =
    let size = (r.cmd.datalen + 2) % 2 ^ 32 in
    if leb aconn_iov_req_size_init (r.iov_index + 1) || leb (2 ^ 31) size
    then none
    else if r.data_pending_read == 0
    then some (body_read input 0 size (opened input r))
    else some (copy_pending input r.iov_index (pending_bytes r) (opened input r))

-- With pending bytes the source copies from an index that is not set.
unfoldable pub body_continue : Input → Receiver → Option Returns
unfolding body_read
body_continue input r =
    let b = r.buffers r.iov_index in
    let len = (r.cmd.datalen + 2 + 2 ^ 32 - b.base_offset) % 2 ^ 32 in
    if r.data_pending_read == 0
    then (if leb (2 ^ 31) len then none else some (body_read input b.base_offset len r))
    else none

-- A length that is negative as an `int` is left out, as `none`.
unfoldable pub receive_body : Input → Receiver → Option Returns
unfolding body_start body_continue
receive_body input r =
    if r.cmd.datalen == 0
    then some (none, app_error aerr_tokenizer_cmd_invalid_datalen (record r { state = cmd_done }))
    else if (r.buffers r.iov_index).body_part
    then body_continue input r
    else body_start input r

-- `switch (this->state)`
unfoldable pub in_state : ConnState → Input → Receiver → Option Returns
unfolding receive_header receive_body
in_state cmd_wait input r = receive_header input r
in_state body_wait input r = receive_body input r
in_state hdr_wait input r = none
in_state cmd_done input r = none

unfoldable pub process_data_recv : Input → Receiver → Option Returns
unfolding in_state
process_data_recv input r = in_state r.state input r
