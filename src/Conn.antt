-- ===== src/Conn.antt =====
-- aConn.cpp and aConn.h: the state of a connection, its counters and flags, and its reset.
pub mod Flags
use acached.Prelude.{ℕ, ◌-◌, ◌*◌, List, [], ◌∷◌, leb, if◌then◌else◌, get_or, set, map}
use acached.Atomic.{
  atomic_is_set, atomic_set, atomic_reset, atomic_incr_add_get, atomic_decr_sub_get,
}
use acached.Queue.{Ptr, null}

pub data ConnState : Type 0 where
  cmd_wait hdr_wait body_wait cmd_done : ConnState

-- One index of the arrays of `iovReq`; the bits of `iovDesc` as a number.
pub record ReqEntry : Type 0 where
  pub iov_base : Ptr
  pub iov_len : ℕ
  pub desc : ℕ
  pub base_offset : ℕ
  pub alloc_size : ℕ

pub record Conn : Type 0 where
  pub c_type : ℕ
  pub c_sock_fd : ℕ
  pub busy : ℕ
  pub concurrent : ℕ
  pub dirty_fd : ℕ
  pub refcount : ℕ
  pub conc_pending : ℕ
  pub aerrnum : ℕ
  pub aerrtype : ℕ
  pub req_count : ℕ
  pub reply_count : ℕ
  pub totalsize : ℕ
  pub empty_q : ℕ
  pub con_watch_sent : ℕ
  pub data_pending_read : ℕ
  pub writingflag : ℕ
  pub windexlast : ℕ
  pub state : ConnState
  pub req_index : ℕ
  pub req_entries : List ReqEntry
  pub reply_index : ℕ

abbrev pub aconn_iov_req_size_init : ℕ
aconn_iov_req_size_init = 32

abbrev pub aerr_type_app : ℕ
aerr_type_app = 101

abbrev pub aerr_type_sys : ℕ
aerr_type_sys = 102

-- The size of an `aConnIovDesc`, an enumeration, and that of a `bitset<64>`.
abbrev pub desc_bytes : ℕ
desc_bytes = 4

abbrev pub bitset_bytes : ℕ
bitset_bytes = 8

-- The two calls of `memset`, which leave the offsets and the sizes: the first clears every base and
-- length, the second the descriptions as far as `bytes` go.
unfoldable pub clear_entries : ℕ → List ReqEntry → List ReqEntry
clear_entries bytes [] = []
clear_entries bytes (e ∷ es) =
    record e { iov_base = null; iov_len = 0; desc = if leb bitset_bytes bytes then 0 else e.desc }
    ∷ clear_entries (bytes - bitset_bytes) es

unfoldable pub reset : Conn → Conn
unfolding clear_entries
reset c = record c {
  state = cmd_wait;
  dirty_fd = 0;
  refcount = 0;
  concurrent = 0;
  aerrnum = 0;
  aerrtype = 0;
  conc_pending = 0;
  req_index = 0;
  empty_q = 0;
  con_watch_sent = 0;
  req_entries = clear_entries (aconn_iov_req_size_init * desc_bytes) c.req_entries;
}

unfoldable pub init : ℕ → ℕ → Conn → Conn
unfolding reset
init c_type c_sock_fd c = reset (record c { c_type = c_type; c_sock_fd = c_sock_fd })

-- The constructor. `entries` is what the memory for the requests holds, whose offsets and sizes are
-- cleared; `Reset` clears the rest. The table of replies is not part of this record.
unfoldable pub a_conn : ℕ → ℕ → List ReqEntry → Conn
unfolding reset
a_conn c_type c_sock_fd entries = reset record {
  c_type = c_type;
  c_sock_fd = c_sock_fd;
  busy = 0;
  concurrent = 0;
  dirty_fd = 0;
  refcount = 0;
  conc_pending = 0;
  aerrnum = 0;
  aerrtype = 0;
  req_count = 0;
  reply_count = 0;
  totalsize = 0;
  empty_q = 0;
  con_watch_sent = 0;
  data_pending_read = 0;
  writingflag = 0;
  windexlast = 0;
  state = cmd_wait;
  req_index = 0;
  req_entries =
      map {A = ReqEntry} (λ (e : ReqEntry). record e { base_offset = 0; alloc_size = 0 }) entries;
  reply_index = 0;
}

unfoldable pub assign : Conn → ℕ × Conn
unfolding atomic_incr_add_get
assign c = let (ret, new) = atomic_incr_add_get c.refcount in (ret, record c { refcount = new })

unfoldable pub revoke : Conn → ℕ × Conn
unfolding atomic_decr_sub_get
revoke c = let (ret, new) = atomic_decr_sub_get c.refcount in (ret, record c { refcount = new })

abbrev on_dirty_fd : (ℕ → ℕ × ℕ) → Conn → ℕ × Conn
on_dirty_fd f c = let (ret, new) = f c.dirty_fd in (ret, record c { dirty_fd = new })

abbrev on_concurrent : (ℕ → ℕ × ℕ) → Conn → ℕ × Conn
on_concurrent f c = let (ret, new) = f c.concurrent in (ret, record c { concurrent = new })

abbrev on_conc_pending : (ℕ → ℕ × ℕ) → Conn → ℕ × Conn
on_conc_pending f c = let (ret, new) = f c.conc_pending in (ret, record c { conc_pending = new })

unfoldable pub is_dirty_fd : Conn → ℕ × Conn
unfolding atomic_is_set
is_dirty_fd = on_dirty_fd atomic_is_set

unfoldable pub dirty_fd_set : Conn → ℕ × Conn
unfolding atomic_set
dirty_fd_set = on_dirty_fd atomic_set

unfoldable pub dirty_fd_reset : Conn → ℕ × Conn
unfolding atomic_reset
dirty_fd_reset = on_dirty_fd atomic_reset

unfoldable pub is_concurrent : Conn → ℕ × Conn
unfolding atomic_is_set
is_concurrent = on_concurrent atomic_is_set

unfoldable pub concurrent_set : Conn → ℕ × Conn
unfolding atomic_set
concurrent_set = on_concurrent atomic_set

unfoldable pub concurrent_reset : Conn → ℕ × Conn
unfolding atomic_reset
concurrent_reset = on_concurrent atomic_reset

unfoldable pub is_conc_pending : Conn → ℕ × Conn
unfolding atomic_is_set
is_conc_pending = on_conc_pending atomic_is_set

unfoldable pub conc_pending_set : Conn → ℕ × Conn
unfolding atomic_set
conc_pending_set = on_conc_pending atomic_set

unfoldable pub conc_pending_reset : Conn → ℕ × Conn
unfolding atomic_reset
conc_pending_reset = on_conc_pending atomic_reset

-- `free` of the base is left out: the memory of the requests is not part of the model.
unfoldable pub free_iov : ℕ → Conn → Conn
free_iov index c =
    let old =
      get_or c.req_entries index
        (record { iov_base = null; iov_len = 0; desc = 0; base_offset = 0; alloc_size = 0 }) in
    record c {
      req_entries =
          set c.req_entries index
            (record old { iov_base = null; iov_len = 0; base_offset = 0; alloc_size = 0 });
    }

-- `SetError()` with the value of `errno`
unfoldable pub set_error_errno : ℕ → Conn → Conn
set_error_errno errno c = record c { aerrnum = errno; aerrtype = aerr_type_sys }

unfoldable pub set_error : ℕ → Conn → Conn
set_error aerrnum c = record c { aerrnum = aerrnum; aerrtype = aerr_type_app }
