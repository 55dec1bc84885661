-- ===== src/Store/Gets.antt =====
-- threadKVdata.cpp: a store thread's handling of a gets message, and the last reply of a command.
-- `none` is a call that blocks, a wait for another thread, or a read behind the memory.
pub mod Last
pub mod Single
use acached.Prelude.{
  ℕ, zero, suc, ◌+◌, ◌-◌, ◌%◌, ◌^◌, List, [], ◌∷◌, ◌++◌, Bool, true, false, ◌&&◌, not, ◌||◌, Option,
  none, some, ◌==◌, ltb, leb, if◌then◌else◌,
}
use acached.Atomic.{
  compare_and_swap, atomic_is_set, atomic_set, atomic_incr_add_get, atomic_incr_get_add,
  atomic_decr_sub_get,
}
use acached.Queue.{Ptr}
use acached.Pool.{a_msg_release}
use acached.Message.{success, init, set_errbuf}
use acached.Parse.Header.{c_string}
use acached.Reply.{Iovec, Send, iov_max}
use acached.Reply.Once.{Attempt, wrote, write_all_once}
use acached.Reply.Queued.{Replies, add_iov_reply, q_reply}
use acached.Table.Memory.{KvData, write}
use acached.Table.{get_entry}
use acached.Store.{Worker, release, check_pending, ◌>>=◌}

abbrev pub aerr_type_app_gets : ℕ
aerr_type_app_gets = 104

-- "CLIENT_ERROR NOT FOUND \r\n"
abbrev pub not_found : List ℕ
not_found =
    b'C' ∷ b'L' ∷ b'I' ∷ b'E' ∷ b'N' ∷ b'T' ∷ b'_' ∷ b'E' ∷ b'R' ∷ b'R' ∷ b'O' ∷ b'R' ∷ b' ' ∷ b'N'
    ∷ b'O' ∷ b'T' ∷ b' ' ∷ b'F' ∷ b'O' ∷ b'U' ∷ b'N' ∷ b'D' ∷ b' ' ∷ b'\r' ∷ b'\n' ∷ []

abbrev pub end_line : List ℕ
end_line = b'E' ∷ b'N' ∷ b'D' ∷ b'\r' ∷ b'\n' ∷ []

-- The for loop over `count` entries from `i` on: whether all are written.
unfoldable pub entries_written : (ℕ → Bool) → ℕ → ℕ → Bool
entries_written written i zero = true
entries_written written i (suc count) = written i && entries_written written (suc i) count

-- The do-while loop over at most IOV_MAX entries at a time, with the attempts of each write. The sum
-- is of the writes that gave a positive number; it is only logged. With what the kernel has taken.
unfoldable pub write_batches :
    List (List Attempt) → ℕ → ℕ → ℕ → Iovec → List ℕ → Option (ℕ × (Iovec × List ℕ))
write_batches [] start count tot iovec sent = none
write_batches (attempts ∷ batches) start count tot iovec sent =
    let newcount = if ltb iov_max count then iov_max else count in
    let left = if ltb iov_max count then count - iov_max else count in
    let more = λ (ret : ℕ) (table : Iovec) (taken : List ℕ).
      write_batches batches (start + newcount) left (tot + ret) table (sent ++ taken) in
    elim (write_all_once attempts start newcount iovec) as (λ _. Option (ℕ × (Iovec × List ℕ))) [
      | none ↦ none
      | some (wrote ret, (table, taken)) ↦
          let rest = more ret table taken in
          if (ret == 0) || ltb newcount iov_max
          then some (tot + ret, (table, sent ++ taken))
          else rest
      | some (_, (table, taken)) ↦ some (tot, (table, sent ++ taken))
    ]

abbrev pub clear_front : ℕ → Iovec → Iovec
clear_front zero iovec = iovec
clear_front (suc n) [] = []
clear_front (suc n) (e ∷ es) = [] ∷ clear_front n es

-- The loop that clears the entries below `ret2`.
abbrev pub clear_replies : ℕ → Replies → Replies
clear_replies ret2 r = record r {
  writer = record r.writer { iovec = clear_front ret2 r.writer.iovec };
  written = λ i. if ltb i ret2 then false else r.written i;
  malloced = λ i. if ltb i ret2 then false else r.malloced i;
}

-- `END` is queued. With the number of entries in use, whose index starts anew.
unfoldable pub queue_end : Replies → Option (ℕ × Replies)
unfolding atomic_incr_get_add add_iov_reply
queue_end r =
    let (ret2, new) = atomic_incr_get_add r.iov_index in
    elim (add_iov_reply end_line 5 true ret2 (record r { iov_index = new }))
      as (λ _. Option (ℕ × Replies)) [
        | none ↦ none
        | some (size, r) ↦
            some (ret2 + 1, record r { totalsize = (r.totalsize + size) % 2 ^ 32; iov_index = 0 })
      ]

-- The waits for the writing flag and for the other entries, and the writes, with what the kernel has
-- taken.
unfoldable pub send_replies : List (List Attempt) → ℕ → Replies → Option (Replies × List ℕ)
send_replies batches ret2 r =
    let y = r.writer.windexlast in
    let ready =
      (r.writer.writingflag == 0) && (leb y ret2 && entries_written r.written y (ret2 - y)) in
    let sent : Option (Replies × List ℕ) =
      elim (write_batches batches y (ret2 - y) 0 r.writer.iovec []) [
        | none ↦ none
        | some (tot, (table, taken)) ↦
            some (record r { writer = record r.writer { iovec = table } }, taken)
      ] in
    if ready then sent else none

-- What follows a test that succeeded.
unfoldable pub end_replies : List (List Attempt) → Worker → Option Worker
unfolding queue_end send_replies release atomic_set check_pending
end_replies batches w = elim (queue_end w.replies) as (λ _. Option Worker) [
  | none ↦ none
  | some (ret2, r) ↦ elim (send_replies batches ret2 r) as (λ _. Option Worker) [
    | none ↦ none
    | some (r, taken) ↦ check_pending (
        release (record w {
          req_count = 0;
          replies = clear_replies ret2 r;
          sent = w.sent ++ taken;
          con_watch_sent = (atomic_set w.con_watch_sent).1;
        }))
  ]
]

-- The reply is counted, and the last one is found.
unfoldable pub count_reply : List (List Attempt) → Worker → Option Worker
unfolding atomic_incr_add_get atomic_is_set compare_and_swap end_replies
count_reply batches w =
    let added = (atomic_incr_add_get w.reply_count).1 in
    let (pending, _) = atomic_is_set w.conc_pending in
    let (old, new) = compare_and_swap added w.req_count 0 in
    let w = record w { reply_count = added } in
    let tested =
      if old == w.req_count then end_replies batches (record w { reply_count = new }) else some w in
    if pending == 0 then tested else some w

abbrev pub revoke : Worker → Worker
revoke w = record w { refcount = (atomic_decr_sub_get w.refcount).1 }

-- The reply to a record that was found, whose memory is changed.
unfoldable pub reply_found : List Send → Ptr → Worker → Option Worker
unfolding q_reply write
reply_found sends p w =
    let put = λ (k : KvData) (key : List ℕ).
      elim (q_reply sends k.entry key w.replies) as (λ _. Option Worker) [
        | none ↦ none
        | some (e, r) ↦ some (
            revoke (record w {
              msg = record w.msg { kv_dataptr = p };
              heap = write w.heap p (some (record k { entry = e }));
              replies = r;
            }))
      ] in
    elim (w.heap p) as (λ _. Option Worker) [
      | none ↦ none
      | some k ↦ elim (c_string w.msg.key) as (λ _. Option Worker) [
        | none ↦ none
        | some key ↦ put k key
      ]
    ]

-- Nothing is queued for a key that is not found.
unfoldable pub reply_missing : Worker → Worker
unfolding set_errbuf
reply_missing w =
    revoke (record w { aerrtype = aerr_type_app_gets; msg = set_errbuf not_found w.msg })

-- `fuel` is for the table's loop.
unfoldable pub look_up : ℕ → List Send → Worker → Option Worker
unfolding get_entry reply_found reply_missing
look_up fuel sends w =
    elim (get_entry fuel w.msg.hashval w.msg.key w.msg.keylen w.table w.heap)
      as (λ _. Option Worker) [
        | none ↦ none
        | some (none, t, h) ↦ some (reply_missing (record w { table = t; heap = h }))
        | some (some p, t, h) ↦ reply_found sends p (record w { table = t; heap = h })
      ]

-- The message goes back to its pool.
unfoldable pub give_back : Ptr → Worker → Option Worker
unfolding a_msg_release init
give_back ptr w = elim (a_msg_release ptr w.msg_pool) as (λ _. Option Worker) [
  | none ↦ none
  | some (_, pool) ↦ some record w { msg_pool = pool; msg = init success w.msg.a_c w.msg.ctype }
]

-- `case ACACHED_CMD_GETS`, for the message at `ptr`.
unfoldable pub handle_gets : ℕ → List Send → List (List Attempt) → Ptr → Worker → Option Worker
unfolding look_up count_reply give_back
handle_gets fuel sends batches ptr w =
    look_up fuel sends w >>= count_reply batches >>= give_back ptr
