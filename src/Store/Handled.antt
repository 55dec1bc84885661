-- ===== src/Store/Handled.antt =====
-- A set message from its body to the record that a get finds.
use acached.Prelude.{
  ℕ, zero, suc, ◌+◌, ◌^◌, ◌≤◌, ◌<◌, ◌≡◌, ◌≢◌, refl, sym, ap, ◌∙◌, subst, List, [], ◌∷◌, ◌++◌, true,
  false, none, some, ◌==◌, length, take, set, replicate, arith, Bool-cases, inl, inr, length-take,
  ==_refl,
}
use acached.Atomic.{atomic_incr_get_add, atomic_decr_sub_get}
use acached.Queue.{Ptr, null, remove}
use acached.Queue.Shared.{empty, adapt_lock, adapt_un_lock}
use acached.Pool.{a_msg_release}
use acached.Pool.Conserve.{idle, release_lem}
use acached.Request.Order.{free_queue}
use acached.Queue.FreeBusy.Shared.{FbSharedQ}
use acached.Message.{success, init}
use acached.Reply.{Iovec, stream}
use acached.Reply.Written.{length-stream}
use Prim.Native.Nat.{min}
use acached.Reply.Once.{
  Attempt, room, Returned, zero_returned, wrote, sendmsg, write_all_once_imm, send_once,
}
use acached.Reply.Queued.{Replies, added, add_iov_reply}
use acached.Table.{Hashtable, bucket, set_entry, get_entry}
use acached.Table.Memory.{Heap, Entry, KvData, kv_data, write}
use acached.Store.{
  Worker, stored, took_first, release, check_pending, finish, store_entry, put_record, reply_stored,
  handle_set, ◌>>=◌,
}
use acached.Store.Layout.{add_copy, store_entry_lem}
use acached.Table.Chain.{has, Comparable}
use acached.Table.Refinement.{View, Represents}
use acached.Table.Roundtrip.{get_entry-set_entry}

take-min : (n : ℕ) (l : List ℕ) → take (min n (length l)) l ≡ take n l
take-min zero l = let e : min 0 (length l) ≡ 0 = omega arith in ap (λ k. take k l) e
take-min (suc n) [] = let e : min (suc n) 0 ≡ 0 = omega arith in ap (λ k. take {A = ℕ} k []) e
take-min (suc n) (x ∷ l) =
    let e : min (suc n) (suc (length l)) ≡ suc (min n (length l)) = omega arith in
    ap (λ k. take k (x ∷ l)) e ∙ ap (◌∷◌ x) (take-min n l)

sent_one :
    (n : ℕ) (attempts : List Attempt) (iovec : Iovec)
    → (ret : Returned) × (write_all_once_imm (room n ∷ attempts) 0 1 iovec ≡ some ret)
      × (took_first ret iovec ≡ take n (stream (take 1 iovec)))
unfolding write_all_once_imm send_once
sent_one n attempts iovec =
    let l = stream (take 1 iovec) in
    let m = sendmsg (take 1 iovec) n in
    let bytes : m ≡ min n (length l) = omega (arith, length-stream (take 1 iovec)) in
    let same : take m l ≡ take n l = ap (λ k. take k l) bytes ∙ take-min n l in
    elim (Bool-cases (m == 0)) [
      | inl nothing ↦
          let none_sent : m ≡ 0 = ground (arith, nothing) in
          rw nothing (zero_returned, refl, ap (λ k. take k l) (sym none_sent) ∙ same)
      | inr something ↦ rw something (wrote m, refl, same)
    ]

-- What the kernel takes of the reply, with room for `n` bytes: of the first entry.
abbrev pub reply_taken : ℕ → Worker → List ℕ
reply_taken n w = take n (stream (take 1 (set w.replies.writer.iovec w.replies.iov_index stored)))

abbrev after_reply : ℕ → Worker → Worker
after_reply n w = record w {
  sent = w.sent ++ reply_taken n w;
  replies =
      added stored true w.replies.iov_index
        (record w.replies { iov_index = (atomic_incr_get_add w.replies.iov_index).1 });
}

reply_stored_lem :
    (n : ℕ) (attempts : List Attempt) (w : Worker)
    → w.replies.iov_index < length w.replies.writer.iovec
    → reply_stored (room n ∷ attempts) w ≡ some (after_reply n w)
unfolding reply_stored atomic_incr_get_add
reply_stored_lem n attempts w in_table =
    let i = w.replies.iov_index in
    let r0 : Replies = record w.replies { iov_index = (atomic_incr_get_add i).1 } in
    let (ret, sent, took) = sent_one n attempts (set w.replies.writer.iovec i stored) in
    let copied : add_iov_reply stored 8 true i r0 ≡ some (8, added stored true i r0) =
      add_copy stored i r0 in_table in
    rw (copied, sent, took, reply_stored) refl

-- One notification when something is pending.
abbrev pub notified_by : List Ptr → ℕ → ℕ
notified_by [] n = n
notified_by (p ∷ ps) n = n + 1

pub check_pending_lem :
    (type : ℕ) (items : List Ptr) (w : Worker)
    → w.pending_cmd_q ≡ free_queue type items
    → check_pending w
      ≡ some record w {
        pending_cmd_q = free_queue type items;
        notified = notified_by items w.notified;
      }
unfolding check_pending empty adapt_lock adapt_un_lock
check_pending_lem type [] w e = rw (e, check_pending) refl
check_pending_lem type (i ∷ items) w e = rw (e, check_pending) refl

-- The counters and flags of a connection whose set was handled.
pub record Freed (n type : ℕ) (items : List Ptr) (w w' : Worker) : Type 0 where
  pub busy : w'.busy ≡ 0
  pub reply_count : w'.reply_count ≡ 0
  pub iov_index : w'.replies.iov_index ≡ 0
  pub totalsize : w'.replies.totalsize ≡ 0
  pub windexlast : w'.replies.writer.windexlast ≡ 0
  pub iovec : w'.replies.writer.iovec ≡ set w.replies.writer.iovec w.replies.iov_index stored
  pub pending : w'.pending_cmd_q ≡ free_queue type items
  pub notified : w'.notified ≡ notified_by items w.notified
  pub sent : w'.sent ≡ w.sent ++ reply_taken n w

abbrev after_release : Ptr → FbSharedQ → Worker → Worker
after_release ptr pool w = record w {
  msg_pool = pool;
  msg = init success w.msg.a_c w.msg.ctype;
  refcount = (atomic_decr_sub_get w.refcount).1;
}

finish_lem :
    (ptr : Ptr) (kind mtype : ℕ) (free busy : List Ptr) (w : Worker)
    → w.msg_pool ≡ idle kind mtype free busy
    → finish ptr w
      ≡ some (after_release ptr (idle kind mtype (free ++ ptr ∷ []) (remove ptr busy)) w)
unfolding finish a_msg_release
finish_lem ptr kind mtype free busy w e =
    let released : a_msg_release ptr w.msg_pool
        ≡ some (null, idle kind mtype (free ++ ptr ∷ []) (remove ptr busy)) =
      ap (a_msg_release ptr) e ∙ release_lem kind mtype free busy ptr in
    rw (released, finish) refl

after_put :
    (ptr : Ptr) (n type kind mtype : ℕ) (attempts : List Attempt) (items free busy : List Ptr)
    (w : Worker)
    → w.busy ≡ 1
    → w.pending_cmd_q ≡ free_queue type items
    → w.msg_pool ≡ idle kind mtype free busy
    → w.replies.iov_index < length w.replies.writer.iovec
    → (w' : Worker) × ((reply_stored (room n ∷ attempts) w >>= λ w.
          check_pending (release w) >>= finish ptr)
        ≡ some w')
      × Freed n type items w w'
      × (w'.table ≡ w.table)
      × (w'.heap ≡ w.heap)
unfolding release
after_put ptr n type kind mtype attempts items free busy w is_busy q pool in_table =
    let held : (w.busy == 1) ≡ true = ground (arith, is_busy) in
    let replied = release (after_reply n w) in
    let looked : Worker = record replied {
      pending_cmd_q = free_queue type items;
      notified = notified_by items w.notified;
    } in
    rw
      (
        reply_stored_lem n attempts w in_table,
        check_pending_lem type items replied q,
        finish_lem ptr kind mtype free busy looked pool,
      )
      (
        _,
        refl,
        record {
          busy = rw held refl;
          reply_count = refl;
          iov_index = refl;
          totalsize = refl;
          windexlast = refl;
          iovec = refl;
          pending = refl;
          notified = refl;
          sent = refl;
        },
        refl,
        refl,
      )

placed_lem : (h : Heap) (p : Ptr) (k : KvData) → write h p (some k) p ≡ some k
unfolding write
placed_lem h p k = rw (==_refl p) refl

put_record_lem :
    (fuel : ℕ) (address : Ptr) (w : Worker) (e : Entry) (t : Hashtable) (h : Heap)
    → store_entry w.msg ≡ some e
    → set_entry fuel w.msg.hashval address w.table
        (write w.heap address (some (kv_data e null null)))
      ≡ some (0, t, h)
    → put_record fuel address w
      ≡ some record w { table = t; heap = h; msg = record w.msg { cmdptr = none } }
unfolding put_record
put_record_lem fuel address w e t h p q = rw (p, q, put_record) refl

-- A set message is handled: when the connection is busy with it, its key and body are in its memory,
-- which makes a record below 2 ^ 31 bytes, the table and the heap with the new record represent
-- chains in which the record does not stand and along which no comparison with the key reads past an
-- allocation, the fuel is enough for one record more than the bucket's chain has, the mutexes are
-- free, the reply table has room, and the kernel has room for
-- `n` bytes. Then the handler returns, a get of the
-- key and its hash value finds the new record, and the connection is free with its counters at 0,
-- the reply queued at its index, of the table's first entry as many bytes sent as there was room for,
-- and a notification in the pipe if something is pending.
pub handle_set-Freed :
    (fuel : ℕ) (address ptr : Ptr) (n type kind mtype : ℕ) (attempts : List Attempt)
    (items free busy : List Ptr) (w : Worker) (body : List ℕ) (view : View)
    → w.busy ≡ 1
    → w.pending_cmd_q ≡ free_queue type items
    → w.msg_pool ≡ idle kind mtype free busy
    → w.replies.iov_index < length w.replies.writer.iovec
    → w.msg.cmdptr ≡ some body
    → w.msg.keylen ≤ length w.msg.key
    → w.msg.vallen ≤ length body
    → w.msg.keylen + w.msg.vallen + 34 < 2 ^ 31
    → let key = take w.msg.keylen w.msg.key in
      let value = take w.msg.vallen body in
      let home = bucket w.table w.msg.hashval in
      let entry : Entry = record {
        keylen = w.msg.keylen;
        vallen = w.msg.vallen;
        bytes = key ++ (value ++ replicate 10 0);
      } in
      let heap = write w.heap address (some (kv_data entry null null)) in
      Represents w.table heap view
      → suc (length (view home)) ≤ fuel
      → address ≢ null
      → ((b : ℕ) → has address (view b) ≡ false)
      → Comparable key (length key) (view home)
      → (w' : Worker) × (t'' : Hashtable) × (handle_set fuel address (room n ∷ attempts) ptr w
          ≡ some w')
        × (get_entry fuel w.msg.hashval key (length key) w'.table w'.heap
            ≡ some (some address, t'', w'.heap))
        × Freed n type items w w'
unfolding handle_set
handle_set-Freed fuel address ptr n type kind mtype attempts items free busy w body view is_busy q
      pool in_table c k v small rep enough real fresh comp =
    let key = take w.msg.keylen w.msg.key in
    let value = take w.msg.vallen body in
    let entry : Entry = record {
      keylen = w.msg.keylen;
      vallen = w.msg.vallen;
      bytes = key ++ (value ++ replicate 10 0);
    } in
    let heap = write w.heap address (some (kv_data entry null null)) in
    let placed : heap address ≡ some (kv_data entry null null) =
      placed_lem w.heap address (kv_data entry null null) in
    let (t, h, t'', set_run, got) =
      get_entry-set_entry w.table heap view rep fuel w.msg.hashval address (kv_data entry null null)
        key (value ++ replicate 10 0) enough real placed fresh refl
        (omega (arith, length-take w.msg.keylen w.msg.key)) comp in
    let put =
      put_record_lem fuel address w entry t h (store_entry_lem w.msg body c k v small) set_run in
    let w1 : Worker = record w { table = t; heap = h; msg = record w.msg { cmdptr = none } } in
    let (w', run, freed, table, same_heap) =
      after_put ptr n type kind mtype attempts items free busy w1 is_busy q pool in_table in
    (
      w',
      t'',
      ap
            (λ o. o >>= reply_stored (room n ∷ attempts) >>= λ w.
              check_pending (release w) >>= finish ptr)
            put
          ∙ run,
      subst
          (λ x.
            get_entry fuel w.msg.hashval key (length key) x w'.heap
            ≡ some (some address, t'', w'.heap))
          (sym table)
          (subst
            (λ x. get_entry fuel w.msg.hashval key (length key) t x ≡ some (some address, t'', x))
            (sym same_heap) got),
      record {
        busy = freed.busy;
        reply_count = freed.reply_count;
        iov_index = freed.iov_index;
        totalsize = freed.totalsize;
        windexlast = freed.windexlast;
        iovec = freed.iovec;
        pending = freed.pending;
        notified = freed.notified;
        sent = freed.sent;
      },
    )
