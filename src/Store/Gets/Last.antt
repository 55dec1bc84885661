-- ===== src/Store/Gets/Last.antt =====
-- The last reply of a gets command.
use mathlib.Core.List.{append-nil}
use acached.Prelude.{
  ℕ, zero, suc, ◌+◌, ◌-◌, ◌%◌, ◌^◌, ◌≤◌, ◌<◌, ◌≡◌, ◌≢◌, refl, sym, ap, ◌∙◌, List, [], ◌∷◌, ◌++◌,
  Bool, true, false, ◌⊎◌, some, ◌==◌, ltb, leb, if◌then◌else◌, length, take, drop, set, arith,
  ==_refl, length-set, length-append, Bool-cases, inl, inr,
}
use acached.Atomic.{compare_and_swap, atomic_is_set, atomic_incr_add_get, atomic_incr_get_add}
use acached.Queue.{Ptr}
use acached.Request.Order.{free_queue}
use acached.Reply.{Iovec, stream, size, iov_max}
use acached.Reply.Written.{stream-append, length-stream}
use acached.Reply.Once.{Attempt, room, wrote, write_all_once}
use acached.Reply.Once.Whole.{write_all_once-offered}
use acached.Reply.Queued.{Replies, added, add_iov_reply}
use acached.Store.{Worker, release}
use acached.Store.Layout.{add_copy}
use acached.Store.Handled.{notified_by, check_pending_lem}
use acached.Store.Gets.{
  end_line, entries_written, write_batches, clear_front, clear_replies, queue_end, send_replies,
  end_replies, count_reply,
}

-- The last entry of a range is one that was set.
pub take-drop-set :
    (y k : ℕ) (iovec : Iovec) (v : List ℕ)
    → y + k < length iovec
    → take (suc k) (drop y (set iovec (y + k) v)) ≡ take k (drop y iovec) ++ v ∷ []
take-drop-set y k [] v h = absurd (omega arith)
take-drop-set zero zero (e ∷ es) v h = refl
take-drop-set zero (suc k) (e ∷ es) v h =
    let at : 0 + suc k ≡ suc (0 + k) = omega arith in
    ap (λ j. take (suc (suc k)) (set (e ∷ es) j v)) at
    ∙ ap (◌∷◌ e) (take-drop-set zero k es v (omega arith))
take-drop-set (suc y) k (e ∷ es) v h =
    let at : suc y + k ≡ suc (y + k) = omega arith in
    ap (λ j. take (suc k) (drop (suc y) (set (e ∷ es) j v))) at
    ∙ take-drop-set y k es v (omega arith)

-- The entry behind those that are written.
entries_written-next :
    (written written' : ℕ → Bool) (y k : ℕ)
    → entries_written written y k ≡ true
    → ((j : ℕ) → written j ≡ true → written' j ≡ true)
    → written' (y + k) ≡ true
    → entries_written written' y (suc k) ≡ true
unfolding entries_written
entries_written-next written written' y zero h keep this =
    let at : y + 0 ≡ y = omega arith in rw (ap written' (sym at) ∙ this) refl
entries_written-next written written' y (suc k) h keep this =
    let at : y + suc k ≡ suc y + k = omega arith in
    let rest =
      entries_written-next written written' (suc y) k (ground (arith, h)) keep
        (ap written' (sym at) ∙ this) in
    let now : written y ≡ true = ground (arith, h) in rw (keep y now, rest) refl

-- The table with `END`, and the entries from `windexlast` on to it.
abbrev pub with_end : Replies → Iovec
with_end r = set r.writer.iovec r.iov_index end_line

abbrev pub offered : Replies → Iovec
offered r = take (suc (r.iov_index - r.writer.windexlast)) (drop r.writer.windexlast (with_end r))

-- All replies are in the table, which has room for `END`, and the kernel has room for `n` bytes.
pub record Whole (n : ℕ) (r : Replies) : Type 0 where
  pub room : r.iov_index < length r.writer.iovec
  pub index : r.iov_index + 1 < 2 ^ 32
  pub behind : r.writer.windexlast ≤ r.iov_index
  pub few : r.iov_index + 1 < r.writer.windexlast + 1024
  pub flag : r.writer.writingflag ≡ 0
  pub written :
      entries_written r.written r.writer.windexlast (r.iov_index - r.writer.windexlast) ≡ true
  pub small : size (offered r) < 2 ^ 32
  pub fits : size (offered r) ≤ n

module _ (n : ℕ) (r : Replies) (h : Whole n r) where
  where_end :
      stream (offered r)
      ≡ stream (take (r.iov_index - r.writer.windexlast) (drop r.writer.windexlast r.writer.iovec))
        ++ end_line
  where_end =
      let y = r.writer.windexlast in
      let k = r.iov_index - y in
      let at : y + k ≡ r.iov_index = omega (arith, h.behind) in
      ap (λ i. stream (take (suc k) (drop y (set r.writer.iovec i end_line)))) (sym at)
      ∙ ap stream (take-drop-set y k r.writer.iovec end_line (omega (arith, at, h.room)))
      ∙ stream-append (take k (drop y r.writer.iovec)) (end_line ∷ [])
      ∙ ap (◌++◌ (stream (take k (drop y r.writer.iovec)))) (append-nil end_line)

  some_bytes : 0 < size (offered r)
  some_bytes =
      let k = r.iov_index - r.writer.windexlast in
      omega (
        arith,
        ap length where_end,
        length-stream (offered r),
        length-append (stream (take k (drop r.writer.windexlast r.writer.iovec))) end_line,
      )

  -- One call of the kernel takes all.
  pub sent_once :
      (attempts : List Attempt)
      → write_all_once
          (room n ∷ attempts)
          r.writer.windexlast
          (suc (r.iov_index - r.writer.windexlast))
          (with_end r)
        ≡ some (wrote (size (offered r)), (with_end r, stream (offered r)))
  sent_once attempts =
      write_all_once-offered attempts r.writer.windexlast (suc (r.iov_index - r.writer.windexlast))
        n (with_end r)
        (omega (arith, h.behind, h.room, length-set r.writer.iovec r.iov_index end_line)) some_bytes
        h.small h.fits

  ended : Replies
  ended = record (added end_line true r.iov_index r) {
    totalsize = (r.totalsize + 5) % 2 ^ 32;
    iov_index = 0;
  }

  queue_end_lem : queue_end r ≡ some (r.iov_index + 1, ended)
  unfolding queue_end ended atomic_incr_get_add
  queue_end_lem =
      let i = r.iov_index in
      let r0 : Replies = record r { iov_index = (atomic_incr_get_add i).1 } in
      let copied : add_iov_reply end_line 5 true i r0 ≡ some (5, added end_line true i r0) =
        add_copy end_line i r0 h.room in
      rw (copied, queue_end) refl

  write_batches_lem :
      (attempts : List Attempt) (batches : List (List Attempt))
      → write_batches
          ((room n ∷ attempts) ∷ batches)
          r.writer.windexlast
          (suc (r.iov_index - r.writer.windexlast))
          0
          (with_end r)
          []
        ≡ some (0 + size (offered r), (with_end r, stream (offered r)))
  unfolding write_batches
  write_batches_lem attempts batches =
      let count = suc (r.iov_index - r.writer.windexlast) in
      let (few, behind) : (r.iov_index + 1 < r.writer.windexlast + 1024)
          × (r.writer.windexlast ≤ r.iov_index) =
        (h.few, h.behind) in
      let one : ltb iov_max count ≡ false = ground (arith, few, behind) in
      let last : ltb count iov_max ≡ true = ground (arith, few, behind) in
      let bytes : (size (offered r) == 0) ≡ false = ground (arith, some_bytes) in
      rw (one, sent_once attempts, bytes, one, last, write_batches) refl

  send_replies_lem :
      (attempts : List Attempt) (batches : List (List Attempt))
      → send_replies ((room n ∷ attempts) ∷ batches) (r.iov_index + 1) ended
        ≡ some (ended, stream (offered r))
  unfolding send_replies ended
  send_replies_lem attempts batches =
      let i = r.iov_index in
      let y = r.writer.windexlast in
      let behind = h.behind in
      let count : i + 1 - y ≡ suc (i - y) = omega (arith, behind) in
      let in_range : leb y (i + 1) ≡ true = ground (arith, behind) in
      let at : y + (i - y) ≡ i = omega (arith, behind) in
      let flag : (r.writer.writingflag == 0) ≡ true = ground (arith, h.flag) in
      let all : entries_written (added end_line true i r).written y (suc (i - y)) ≡ true =
        entries_written-next r.written (added end_line true i r).written y (i - y) h.written
          (λ j e. ground (arith, e)) (rw (at, ==_refl i) refl) in
      rw (count, flag, in_range, all, write_batches_lem attempts batches, send_replies) refl

-- The connection behind the last reply.
pub record Closed (type : ℕ) (items : List Ptr) (w w' : Worker) : Type 0 where
  pub busy : w'.busy ≡ 0
  pub req_count : w'.req_count ≡ 0
  pub reply_count : w'.reply_count ≡ 0
  pub iov_index : w'.replies.iov_index ≡ 0
  pub totalsize : w'.replies.totalsize ≡ 0
  pub windexlast : w'.replies.writer.windexlast ≡ 0
  pub iovec : w'.replies.writer.iovec ≡ clear_front (w.replies.iov_index + 1) (with_end w.replies)
  pub pending : w'.pending_cmd_q ≡ free_queue type items
  pub notified : w'.notified ≡ notified_by items w.notified
  pub msg : w'.msg ≡ w.msg
  pub msg_pool : w'.msg_pool ≡ w.msg_pool
  pub heap : w'.heap ≡ w.heap
  pub sent : w'.sent ≡ w.sent ++ stream (offered w.replies)

end_replies-Closed :
    (n type : ℕ) (items : List Ptr) (attempts : List Attempt) (batches : List (List Attempt))
    (w : Worker)
    → w.busy ≡ 1
    → w.pending_cmd_q ≡ free_queue type items
    → Whole n w.replies
    → (w' : Worker) × (end_replies ((room n ∷ attempts) ∷ batches) w ≡ some w')
      × Closed type items w w'
unfolding end_replies release ended
end_replies-Closed n type items attempts batches w is_busy q h =
    let i = w.replies.iov_index in
    let after : Worker = record w {
      req_count = 0;
      replies = clear_replies (i + 1) (ended n w.replies h);
      sent = w.sent ++ stream (offered w.replies);
      con_watch_sent = if w.con_watch_sent == 0 then 1 else w.con_watch_sent;
    } in
    let held : (w.busy == 1) ≡ true = ground (arith, is_busy) in
    rw
      (
        queue_end_lem n w.replies h,
        send_replies_lem n w.replies h attempts batches,
        check_pending_lem type items (release after) q,
        end_replies,
      )
      (
        _,
        refl,
        record {
          busy = rw held refl;
          req_count = refl;
          reply_count = refl;
          iov_index = refl;
          totalsize = refl;
          windexlast = refl;
          iovec = refl;
          pending = refl;
          notified = refl;
          msg = refl;
          msg_pool = refl;
          heap = refl;
          sent = refl;
        },
      )

-- The reply that makes the counts equal, with no key still to be posted, is the last.
pub count_reply-Closed :
    (n type : ℕ) (items : List Ptr) (attempts : List Attempt) (batches : List (List Attempt))
    (w : Worker)
    → w.conc_pending ≡ 0
    → (w.reply_count + 1) % 2 ^ 32 ≡ w.req_count
    → w.busy ≡ 1
    → w.pending_cmd_q ≡ free_queue type items
    → Whole n w.replies
    → (w' : Worker) × (count_reply ((room n ∷ attempts) ∷ batches) w ≡ some w')
      × Closed type items w w'
unfolding count_reply atomic_is_set compare_and_swap atomic_incr_add_get
count_reply-Closed n type items attempts batches w none_pending same is_busy q h =
    let swapped : Worker = record w { reply_count = 0 } in
    let all_posted : (w.conc_pending == 0) ≡ true = ground (arith, none_pending) in
    let equal : ((w.reply_count + 1) % 2 ^ 32 == w.req_count) ≡ true = ground (arith, same) in
    let (w', run, c) = end_replies-Closed n type items attempts batches swapped is_busy q h in
    (
      w',
      rw (all_posted, equal) run,
      record {
        busy = c.busy;
        req_count = c.req_count;
        reply_count = c.reply_count;
        iov_index = c.iov_index;
        totalsize = c.totalsize;
        windexlast = c.windexlast;
        iovec = c.iovec;
        pending = c.pending;
        notified = c.notified;
        msg = c.msg;
        msg_pool = c.msg_pool;
        heap = c.heap;
        sent = c.sent;
      },
    )

-- While a key is still to be posted, or a reply is missing, a reply is only counted: nothing is
-- written, and the connection stays busy.
pub count_reply_waits :
    (batches : List (List Attempt)) (w : Worker)
    → (w.conc_pending ≡ 1) ⊎ ((w.reply_count + 1) % 2 ^ 32 ≢ w.req_count)
    → count_reply batches w ≡ some (record w { reply_count = (w.reply_count + 1) % 2 ^ 32 })
unfolding count_reply atomic_is_set compare_and_swap atomic_incr_add_get
count_reply_waits batches w (inl pending) =
    let more : (w.conc_pending == 0) ≡ false = ground (arith, pending) in rw more refl
count_reply_waits batches w (inr missing) =
    let other : ((w.reply_count + 1) % 2 ^ 32 == w.req_count) ≡ false = ground (arith, missing) in
    elim (Bool-cases (w.conc_pending == 0)) [
      | inl none_pending ↦ rw (none_pending, other) refl
      | inr pending ↦ rw pending refl
    ]
