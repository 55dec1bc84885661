-- ===== src/Store.antt =====
-- threadKVdata.cpp: a store thread's handling of a set message. `none` is a call that blocks, or a
-- read behind the memory.
pub mod Layout
pub mod Handled
pub mod Ending
pub mod Gets
use acached.Prelude.{
  ℕ, ◌+◌, ◌-◌, ◌%◌, ◌^◌, List, [], ◌∷◌, ◌++◌, Bool, true, false, ◌||◌, Option, none, some, ◌==◌,
  ltb, leb, if◌then◌else◌, length, take, drop, replicate,
}
use acached.Atomic.{atomic_incr_get_add, atomic_decr_sub_get}
use acached.Queue.{Ptr, null}
use acached.Queue.Shared.{SharedQ, empty}
use acached.Queue.FreeBusy.Shared.{FbSharedQ}
use acached.Pool.{a_msg_release}
use acached.Message.{Msg, success, init}
use acached.Reply.{Iovec, stream}
use acached.Reply.Once.{
  Returned, wrote, zero_returned, wait_failed, send_failed, Attempt, write_all_once_imm,
}
use acached.Reply.Queued.{Replies, add_iov_reply}
use acached.Table.Memory.{Heap, Entry, KvData, kv_data, write}
use acached.Table.{Hashtable, set_entry}

-- The size of a `KVdata` and the offset of its member `data`, with pointers of eight bytes.
abbrev pub sizeof_kvdata : ℕ
sizeof_kvdata = 32

abbrev pub data_offset : ℕ
data_offset = 24

-- The record of a message: the key, the value, and zeros to the end of the allocation. Sizes that
-- are negative as an `int` are left out.
unfoldable pub store_entry : Msg → Option Entry
store_entry m =
    let datasize = sizeof_kvdata + m.keylen + m.vallen + 2 in
    let with_body : List ℕ → Entry = λ body. record {
      keylen = m.keylen;
      vallen = m.vallen;
      bytes =
          take m.keylen m.key
          ++ (take m.vallen body ++ replicate (datasize - data_offset - m.keylen - m.vallen) 0);
    } in
    elim m.cmdptr as (λ _. Option Entry) [
      | none ↦ none
      | some body ↦
          if leb (2 ^ 31) datasize || (ltb (length m.key) m.keylen || ltb (length body) m.vallen)
          then none
          else some (with_body body)
    ]

-- What a store thread reads and writes: the table, and of the message's connection the replies, the
-- flags and counters, the queue, and the number of notifications in the pipe.
pub record Worker : Type 0 where
  pub table : Hashtable
  pub heap : Heap
  pub msg : Msg
  pub msg_pool : FbSharedQ
  pub replies : Replies
  pub busy : ℕ
  pub reply_count : ℕ
  pub refcount : ℕ
  pub pending_cmd_q : SharedQ
  pub notified : ℕ
  pub req_count : ℕ
  pub conc_pending : ℕ
  pub con_watch_sent : ℕ
  pub aerrtype : ℕ
  -- what the kernel has taken from `WriteAllOnceIMM` and `WriteAllOnce`
  pub sent : List ℕ

abbrev pub stored : List ℕ
stored = b'S' ∷ b'T' ∷ b'O' ∷ b'R' ∷ b'E' ∷ b'D' ∷ b'\r' ∷ b'\n' ∷ []

-- The connection is free again, and its counters start anew.
unfoldable pub release : Worker → Worker
release w = record w {
  busy = if w.busy == 1 then 0 else w.busy;
  reply_count = 0;
  replies = record w.replies {
    writer = record w.replies.writer { windexlast = 0; writingflag = 0 };
    totalsize = 0;
    iov_index = 0;
  };
}

-- `CheckPendingCmdQ` when something is pending.
unfoldable pub check_pending : Worker → Option Worker
unfolding empty
check_pending w = elim (empty w.pending_cmd_q) as (λ _. Option Worker) [
  | none ↦ none
  | some (none_pending, q) ↦
      some record w {
        pending_cmd_q = q;
        notified = if none_pending then w.notified else w.notified + 1;
      }
]

-- The message goes back to its pool.
unfoldable pub finish : Ptr → Worker → Option Worker
unfolding a_msg_release init atomic_decr_sub_get
finish ptr w = elim (a_msg_release ptr w.msg_pool) as (λ _. Option Worker) [
  | none ↦ none
  | some (_, pool) ↦ some record w {
    msg_pool = pool;
    msg = init success w.msg.a_c w.msg.ctype;
    refcount = (atomic_decr_sub_get w.refcount).1;
  }
]

-- The bytes of the first entry that one `sendmsg` took.
abbrev pub took_first : Returned → Iovec → List ℕ
took_first (wrote n) iovec = take n (stream (take 1 iovec))
took_first zero_returned iovec = []
took_first wait_failed iovec = []
took_first send_failed iovec = []

-- The reply to a set.
unfoldable pub reply_stored : List Attempt → Worker → Option Worker
unfolding add_iov_reply write_all_once_imm atomic_incr_get_add
reply_stored attempts w =
    let (ret2, new) = atomic_incr_get_add w.replies.iov_index in
    elim (add_iov_reply stored 8 true ret2 (record w.replies { iov_index = new }))
      as (λ _. Option Worker) [
        | none ↦ none
        | some (size, r) ↦
            elim (write_all_once_imm attempts 0 1 r.writer.iovec) as (λ _. Option Worker) [
              | none ↦ none
              | some ret ↦
                  some record w { replies = r; sent = w.sent ++ took_first ret r.writer.iovec }
            ]
      ]

-- `fuel` is for the table's loop; `address` is that of the new record.
unfoldable pub put_record : ℕ → Ptr → Worker → Option Worker
unfolding store_entry set_entry write
put_record fuel address w = elim (store_entry w.msg) as (λ _. Option Worker) [
  | none ↦ none
  | some e ↦
      elim (set_entry fuel w.msg.hashval address w.table
          (write w.heap address (some (kv_data e null null))))
        as (λ _. Option Worker) [
          | none ↦ none
          | some (_, t, h) ↦
              some record w { table = t; heap = h; msg = record w.msg { cmdptr = none } }
        ]
]

infixl 5 ◌>>=◌
abbrev pub ◌>>=◌ : Option Worker → (Worker → Option Worker) → Option Worker
none >>= f = none
some w >>= f = f w

-- `case ACACHED_CMD_SET`, for the message at `ptr`.
unfoldable pub handle_set : ℕ → Ptr → List Attempt → Ptr → Worker → Option Worker
unfolding put_record reply_stored release check_pending finish
handle_set fuel address attempts ptr w =
    put_record fuel address w >>= reply_stored attempts >>= λ w.
    check_pending (release w) >>= finish ptr
