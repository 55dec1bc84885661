-- ===== src/Store/Gets/Single.antt =====
-- A gets command for which the last reply is a record that was found: what the kernel is given.
use mathlib.Core.List.{append_assoc, append-nil}
use acached.Prelude.{
  ℕ, suc, ◌+◌, ◌-◌, ◌%◌, ◌^◌, ◌≤◌, ◌<◌, ◌≡◌, refl, sym, ap, ◌∙◌, List, [], ◌∷◌, ◌++◌, true, some,
  length, take, drop, set, subst, arith, length-set, length-append,
}
use acached.Queue.{Ptr, null, remove}
use acached.Pool.{a_msg_release}
use acached.Pool.Conserve.{idle, release_lem}
use acached.Request.Order.{free_queue}
use acached.Parse.Header.{c_string}
use acached.Message.{init, success}
use acached.Reply.{Iovec, Send, stream, size}
use acached.Reply.Once.{Attempt, room, wrote, write_all_once}
use acached.Reply.Queued.{Replies, crlf, reply_header, q_reply}
use acached.Table.{Hashtable, get_entry}
use acached.Table.Memory.{Heap, Entry, KvData, write}
use acached.Store.{Worker, ◌>>=◌}
use acached.Store.Layout.{Laid, Waits, Queued, q_reply-Queued}
use acached.Store.Handled.{notified_by}
use acached.Store.Gets.{
  end_line, entries_written, clear_front, revoke, reply_found, look_up, count_reply, give_back,
  handle_gets,
}
use acached.Store.Gets.Last.{take-drop-set, with_end, offered, Whole, sent_once, count_reply-Closed}

-- What waits from an index on is a record's reply alone.
abbrev two_entries : Iovec → ℕ → List ℕ → List ℕ → Iovec
two_entries iovec i header value = set (set iovec i header) (i + 1) value

take_two :
    (iovec : Iovec) (i : ℕ) (header value : List ℕ)
    → i + 1 < length iovec
    → take 2 (drop i (two_entries iovec i header value)) ≡ header ∷ value ∷ []
take_two iovec i header value h =
    let at : i + 0 ≡ i = omega arith in
    let one : take 1 (drop i (set iovec i header)) ≡ header ∷ [] =
      ap (λ j. take 1 (drop i (set iovec j header))) (sym at)
      ∙ take-drop-set i 0 iovec header (omega (arith, h)) in
    take-drop-set i 1 (set iovec i header) value (omega (arith, h, length-set iovec i header))
    ∙ ap (λ es. es ++ value ∷ []) one

-- The replies with `END` behind a record's.
module _ (header value : List ℕ) (r r' : Replies) (w : Waits header value r)
    (q : Queued header value r r') (more : r.iov_index + 2 < length r.writer.iovec)
    (alone : r.writer.windexlast ≡ r.iov_index) where
  offered_lem : offered r' ≡ header ∷ (value ++ crlf) ∷ end_line ∷ []
  offered_lem =
      let i = r.iov_index in
      let next = q.iov_index in
      let first = q.windexlast ∙ alone in
      let count : r'.iov_index - r'.writer.windexlast ≡ 2 = omega (arith, next, first) in
      let both = two_entries r.writer.iovec i header (value ++ crlf) in
      let kept : length both ≡ length r.writer.iovec =
        length-set (set r.writer.iovec i header) (i + 1) (value ++ crlf)
        ∙ length-set r.writer.iovec i header in
      ap (λ n. take (suc n) (drop r'.writer.windexlast (with_end r'))) count
      ∙ ap (λ n. take 3 (drop n (with_end r'))) first
      ∙ ap (λ n. take 3 (drop i (set r'.writer.iovec n end_line))) next
      ∙ ap (λ es. take 3 (drop i (set es (i + 2) end_line))) q.iovec
      ∙ take-drop-set i 2 both end_line (omega (arith, more, kept))
      ∙ ap (λ es. es ++ end_line ∷ [])
          (take_two r.writer.iovec i header (value ++ crlf) (omega (arith, more)))

  Whole-Queued :
      (n : ℕ)
      → r.writer.writingflag ≡ 0
      → size (header ∷ (value ++ crlf) ∷ end_line ∷ []) < 2 ^ 32
      → size (header ∷ (value ++ crlf) ∷ end_line ∷ []) ≤ n
      → Whole n r'
  unfolding entries_written
  Whole-Queued n flag small fits =
      let i = r.iov_index in
      let next = q.iov_index in
      let first = q.windexlast ∙ alone in
      let count : r'.iov_index - r'.writer.windexlast ≡ 2 = omega (arith, next, first) in
      let bytes = ap size offered_lem in
      let kept : length r'.writer.iovec ≡ length r.writer.iovec =
        ap length q.iovec
        ∙ length-set (set r.writer.iovec i header) (i + 1) (value ++ crlf)
        ∙ length-set r.writer.iovec i header in
      let here : r'.written i ≡ true = q.written.0 in
      let there : r'.written (suc i) ≡ true =
        (let at : suc i ≡ i + 1 = omega arith in ap r'.written at ∙ q.written.1) in
      let both : entries_written r'.written i 2 ≡ true = rw (here, there) refl in
      record {
        room = omega (arith, next, more, kept);
        index = omega (arith, next, w.indices);
        behind = omega (arith, next, first);
        few = omega (arith, next, first);
        flag = q.writingflag ∙ flag;
        written =
            ap (λ m. entries_written r'.written r'.writer.windexlast m) count
            ∙ ap (λ m. entries_written r'.written m 2) first
            ∙ both;
        small = omega (arith, small, bytes);
        fits = omega (arith, fits, bytes);
      }

abbrev found : Ptr → Hashtable → Heap → KvData → Entry → Replies → Worker → Worker
found p t h k e r w = revoke (record w {
  table = t;
  heap = write h p (some (record k { entry = e }));
  msg = record w.msg { kv_dataptr = p };
  replies = r;
})

look_up_found :
    (fuel : ℕ) (sends : List Send) (p : Ptr) (t : Hashtable) (h : Heap) (k : KvData) (e : Entry)
    (r : Replies) (asked : List ℕ) (w : Worker)
    → get_entry fuel w.msg.hashval w.msg.key w.msg.keylen w.table w.heap ≡ some (some p, t, h)
    → h p ≡ some k
    → c_string w.msg.key ≡ some asked
    → q_reply sends k.entry asked w.replies ≡ some (e, r)
    → look_up fuel sends w ≡ some (found p t h k e r w)
unfolding look_up reply_found
look_up_found fuel sends p t h k e r asked w hit record_there key run =
    rw (hit, record_there, key, run, look_up, reply_found) refl

give_back_lem :
    (ptr : Ptr) (kind mtype : ℕ) (free busy : List Ptr) (w : Worker)
    → w.msg_pool ≡ idle kind mtype free busy
    → give_back ptr w
      ≡ some record w {
        msg_pool = idle kind mtype (free ++ ptr ∷ []) (remove ptr busy);
        msg = init success w.msg.a_c w.msg.ctype;
      }
unfolding give_back a_msg_release
give_back_lem ptr kind mtype free busy w e =
    let released : a_msg_release ptr w.msg_pool
        ≡ some (null, idle kind mtype (free ++ ptr ∷ []) (remove ptr busy)) =
      ap (a_msg_release ptr) e ∙ release_lem kind mtype free busy ptr in
    rw (released, give_back) refl

abbrev pub reply_to : List ℕ → List ℕ → List ℕ
reply_to asked value = reply_header asked (length value) ++ (value ++ (crlf ++ end_line))

-- The three entries of the reply.
abbrev pub reply_table : List ℕ → List ℕ → ℕ → Iovec → Iovec
reply_table asked value start iovec =
    set (set (set iovec start (reply_header asked (length value))) (start + 1) (value ++ crlf))
      (start + 2) end_line

-- One write of the entries from `start` on, which the kernel takes whole, and the connection behind
-- it.
pub record Sent (asked value : List ℕ) (attempts : List Attempt) (n start type : ℕ)
    (items : List Ptr) (w w' : Worker) : Type 0 where
  pub write :
      write_all_once
        (room n ∷ attempts)
        start
        3
        (reply_table asked value start w.replies.writer.iovec)
      ≡ some (
        wrote (length (reply_to asked value)),
        (reply_table asked value start w.replies.writer.iovec, reply_to asked value),
      )
  pub sent : w'.sent ≡ w.sent ++ reply_to asked value
  pub cleared :
      w'.replies.writer.iovec
      ≡ clear_front (start + 3) (reply_table asked value start w.replies.writer.iovec)
  pub iov_index : w'.replies.iov_index ≡ 0
  pub totalsize : w'.replies.totalsize ≡ 0
  pub windexlast : w'.replies.writer.windexlast ≡ 0
  pub busy : w'.busy ≡ 0
  pub req_count : w'.req_count ≡ 0
  pub reply_count : w'.reply_count ≡ 0
  pub pending : w'.pending_cmd_q ≡ free_queue type items
  pub notified : w'.notified ≡ notified_by items w.notified

module _ (value asked : List ℕ) where
  stream-reply_to :
      stream (reply_header asked (length value) ∷ (value ++ crlf) ∷ end_line ∷ [])
      ≡ reply_to asked value
  stream-reply_to =
      ap (λ l. reply_header asked (length value) ++ ((value ++ crlf) ++ l)) (append-nil end_line)
      ∙ ap (◌++◌ (reply_header asked (length value))) (append_assoc value crlf end_line)

  size-reply_to :
      size (reply_header asked (length value) ∷ (value ++ crlf) ∷ end_line ∷ [])
      ≡ length (reply_to asked value)
  size-reply_to = omega (
    arith,
    length-append (reply_header asked (length value)) (value ++ (crlf ++ end_line)),
    length-append value (crlf ++ end_line),
    length-append value crlf,
  )

  -- When a thread has the last message of a gets command and nothing else waits to be written: the
  -- connection is busy with it, no key is still to be posted, the count of replies with this one is
  -- that of the requests, and the table of replies has no entry behind `windexlast`, a clear
  -- writing flag and room for three. The lookup finds a record with the key, the value and two more
  -- bytes at least in its memory, the reply is small enough not to be written before its end, the
  -- mutexes are free, and the kernel has room for it. Then the handler returns. What the kernel has
  -- taken from it, by one write, is exactly the header line with the key asked for and the value's
  -- length, the value, CR LF and `END`; and the connection is free, with its counters and indices at
  -- 0, the entries cleared, and a notification in the pipe if something is pending.
  pub handle_gets-Sent :
      (fuel n type kind mtype a b : ℕ) (sends : List Send) (attempts : List Attempt)
      (batches : List (List Attempt)) (ptr p : Ptr) (items free busy : List Ptr) (t : Hashtable)
      (h : Heap) (k : KvData) (key behind : List ℕ) (w : Worker)
      → w.busy ≡ 1
      → w.conc_pending ≡ 0
      → (w.reply_count + 1) % 2 ^ 32 ≡ w.req_count
      → w.replies.writer.windexlast ≡ w.replies.iov_index
      → w.replies.iov_index + 2 < length w.replies.writer.iovec
      → w.replies.writer.writingflag ≡ 0
      → get_entry fuel w.msg.hashval w.msg.key w.msg.keylen w.table w.heap ≡ some (some p, t, h)
      → h p ≡ some k
      → c_string w.msg.key ≡ some asked
      → Laid k.entry key value (a ∷ b ∷ behind)
      → length value < 2 ^ 31
      → Waits (reply_header asked (length value)) value w.replies
      → w.pending_cmd_q ≡ free_queue type items
      → w.msg_pool ≡ idle kind mtype free busy
      → length (reply_to asked value) < 2 ^ 32
      → length (reply_to asked value) ≤ n
      → (w' : Worker) × (handle_gets fuel sends ((room n ∷ attempts) ∷ batches) ptr w ≡ some w')
        × Sent asked value attempts n w.replies.iov_index type items w w'
  unfolding handle_gets
  handle_gets-Sent fuel n type kind mtype a b sends attempts batches ptr p items free busy t h k key
        behind w is_busy all_posted same alone more flag hit record_there asked_key l small waits
        pending pool short fits =
      let header = reply_header asked (length value) in
      let (e, r, run, q, _) =
        q_reply-Queued sends k.entry key value behind asked a b w.replies l small waits in
      let w1 = found p t h k e r w in
      let i = w.replies.iov_index in
      let bytes = size-reply_to in
      let whole =
        Whole-Queued header value w.replies r waits q more alone n flag
          (omega (arith, bytes, short)) (omega (arith, bytes, fits)) in
      let (w2, counted, c) =
        count_reply-Closed n type items attempts batches w1 all_posted same is_busy pending whole in
      let next = q.iov_index in
      let first = q.windexlast ∙ alone in
      let count : r.iov_index - r.writer.windexlast ≡ 2 = omega (arith, next, first) in
      let sent = offered_lem header value w.replies r waits q more alone in
      let total : size (offered r) ≡ length (reply_to asked value) = ap size sent ∙ bytes in
      let text : stream (offered r) ≡ reply_to asked value = ap stream sent ∙ stream-reply_to in
      let three : r.iov_index + 1 ≡ i + 3 = omega (arith, next) in
      let table : with_end r ≡ reply_table asked value i w.replies.writer.iovec =
        ap (λ m. set r.writer.iovec m end_line) next ∙ ap (λ l. set l (i + 2) end_line) q.iovec in
      (
        _,
        ap (λ o. o >>= count_reply ((room n ∷ attempts) ∷ batches) >>= give_back ptr)
              (look_up_found fuel sends p t h k e r asked w hit record_there asked_key run)
            ∙ ap (λ o. o >>= give_back ptr) counted
            ∙ give_back_lem ptr kind mtype free busy w2 (c.msg_pool ∙ pool),
        record {
          write =
              subst
                (λ l.
                  write_all_once (room n ∷ attempts) i 3 l
                  ≡ some (wrote (length (reply_to asked value)), (l, reply_to asked value)))
                table
                (ap (λ y. write_all_once (room n ∷ attempts) y 3 (with_end r)) (sym first)
                  ∙ ap
                      (λ m.
                        write_all_once (room n ∷ attempts) r.writer.windexlast (suc m) (with_end r))
                      (sym count)
                  ∙ sent_once n r whole attempts
                  ∙ ap (λ m. some (wrote m, (with_end r, stream (offered r)))) total
                  ∙ ap (λ l. some (wrote (length (reply_to asked value)), (with_end r, l))) text);
          sent = c.sent ∙ ap (◌++◌ w.sent) text;
          cleared =
              c.iovec ∙ ap (λ m. clear_front m (with_end r)) three ∙ ap (clear_front (i + 3)) table;
          iov_index = c.iov_index;
          totalsize = c.totalsize;
          windexlast = c.windexlast;
          busy = c.busy;
          req_count = c.req_count;
          reply_count = c.reply_count;
          pending = c.pending;
          notified = c.notified;
        },
      )
