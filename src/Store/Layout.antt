-- ===== src/Store/Layout.antt =====
-- The layout of a record: what a set stores and a get sends.
use acached.Prelude.{
  ℕ, ◌+◌, ◌-◌, ◌*◌, ◌%◌, ◌^◌, ◌≤◌, ◌<◌, ◌≡◌, refl, sym, ap, ◌∙◌, subst, List, ◌∷◌, ◌++◌, true,
  false, some, ltb, leb, length, take, drop, replicate, arith, length-append, length-take,
  take-append_length, drop-append_length, drop-drop, set, length-set, ==_refl,
}
use mathlib.Core.List.{append_assoc}
use acached.Table.Memory.{Entry}
use acached.Message.{Msg}
use acached.Atomic.{atomic_incr2_get_add}
use acached.Parse.Header.Strings.{strncpy_whole}
use acached.Reply.{Send}
use acached.Reply.Queued.{
  Replies, crlf, end_value, added, add_iov_reply, queue_entries, all_written, flush, reply_header,
  q_reply,
}
use acached.Store.{store_entry}

-- The key, the value, and what is behind them.
pub record Laid (e : Entry) (key value behind : List ℕ) : Type 0 where
  pub keylen : e.keylen ≡ length key
  pub vallen : e.vallen ≡ length value
  pub bytes : e.bytes ≡ key ++ (value ++ behind)

pub store_entry_lem :
    (m : Msg) (body : List ℕ)
    → m.cmdptr ≡ some body
    → m.keylen ≤ length m.key
    → m.vallen ≤ length body
    → m.keylen + m.vallen + 34 < 2 ^ 31
    → store_entry m
      ≡ some record {
        keylen = m.keylen;
        vallen = m.vallen;
        bytes = take m.keylen m.key ++ (take m.vallen body ++ replicate 10 0);
      }
unfolding store_entry
store_entry_lem m body c k v small =
    let in_range : leb (2 ^ 31) (32 + m.keylen + m.vallen + 2) ≡ false = ground arith in
    let key_in : ltb (length m.key) m.keylen ≡ false = ground arith in
    let body_in : ltb (length body) m.vallen ≡ false = ground arith in
    let left : 32 + m.keylen + m.vallen + 2 - 24 - m.keylen - m.vallen ≡ 10 = omega arith in
    rw (c, in_range, key_in, body_in, left) refl

store_entry-Laid :
    (m : Msg) (body : List ℕ)
    → m.cmdptr ≡ some body
    → m.keylen ≤ length m.key
    → m.vallen ≤ length body
    → m.keylen + m.vallen + 34 < 2 ^ 31
    → (e : Entry) × (store_entry m ≡ some e)
      × Laid e (take m.keylen m.key) (take m.vallen body) (replicate 10 0)
store_entry-Laid m body c k v small = (
  _,
  store_entry_lem m body c k v small,
  record {
    keylen = omega (arith, length-take m.keylen m.key);
    vallen = omega (arith, length-take m.vallen body);
    bytes = refl;
  },
)

take_front : (front back : List ℕ) (n : ℕ) → n ≡ length front → take n (front ++ back) ≡ front
take_front front back n e = rw e (take-append_length front back)

drop_front : (front back : List ℕ) (n : ℕ) → n ≡ length front → drop n (front ++ back) ≡ back
drop_front front back n e = rw e (drop-append_length front back)

drop_two :
    (front behind : List ℕ) (a b n : ℕ)
    → n ≡ length front
    → drop (n + 2) (front ++ a ∷ b ∷ behind) ≡ behind
drop_two front behind a b n e =
    sym (drop-drop n 2 (front ++ a ∷ b ∷ behind))
    ∙ ap (drop 2) (drop_front front (a ∷ b ∷ behind) n e)

end_value-Laid :
    (e : Entry) (key value behind : List ℕ) (a b : ℕ)
    → Laid e key value (a ∷ b ∷ behind)
    → (e' : Entry) × (end_value e ≡ some e') × Laid e' key value (crlf ++ behind)
unfolding end_value
end_value-Laid e key value behind a b l =
    let (k, v) : (e.keylen ≡ length key) × (e.vallen ≡ length value) = (l.keylen, l.vallen) in
    let whole : e.bytes ≡ (key ++ value) ++ a ∷ b ∷ behind =
      l.bytes ∙ sym (append_assoc key value (a ∷ b ∷ behind)) in
    let n : e.keylen + e.vallen ≡ length (key ++ value) =
      omega (arith, length-append key value, k, v) in
    let total : length e.bytes ≡ length (key ++ value) + length (a ∷ b ∷ behind) =
      ap length whole ∙ length-append (key ++ value) (a ∷ b ∷ behind) in
    let fits : ltb (length e.bytes) (e.keylen + e.vallen + 2) ≡ false = ground (arith, total, n) in
    let front =
      ap (take (e.keylen + e.vallen)) whole
      ∙ take_front (key ++ value) (a ∷ b ∷ behind) (e.keylen + e.vallen) n in
    let back =
      ap (drop (e.keylen + e.vallen + 2)) whole
      ∙ drop_two (key ++ value) behind a b (e.keylen + e.vallen) n in
    rw fits (
      _,
      refl,
      record {
        keylen = k;
        vallen = v;
        bytes =
            ap (λ t. t ++ (crlf ++ drop (e.keylen + e.vallen + 2) e.bytes)) front
            ∙ ap (λ t. (key ++ value) ++ (crlf ++ t)) back
            ∙ append_assoc key value (crlf ++ behind);
      },
    )

value_sent :
    (e : Entry) (key value behind : List ℕ)
    → Laid e key value (crlf ++ behind)
    → take (e.vallen + 2) (drop e.keylen e.bytes) ≡ value ++ crlf
value_sent e key value behind l =
    let v : e.vallen + 2 ≡ length (value ++ crlf) =
      omega (arith, length-append value crlf, l.vallen) in
    ap (λ t. take (e.vallen + 2) (drop e.keylen t)) l.bytes
    ∙ ap (take (e.vallen + 2)) (drop_front key (value ++ (crlf ++ behind)) e.keylen l.keylen)
    ∙ ap (take (e.vallen + 2)) (sym (append_assoc value crlf behind))
    ∙ take_front (value ++ crlf) behind (e.vallen + 2) v

-- The table of replies behind a record's two entries.
pub record Queued (header value : List ℕ) (r r' : Replies) : Type 0 where
  pub iovec :
      r'.writer.iovec
      ≡ set (set r.writer.iovec r.iov_index header) (r.iov_index + 1) (value ++ crlf)
  pub written : (r'.written r.iov_index ≡ true) × (r'.written (r.iov_index + 1) ≡ true)
  pub iov_index : r'.iov_index ≡ r.iov_index + 2
  pub totalsize : r'.totalsize ≡ r.totalsize + length header + length value + 2
  pub windexlast : r'.writer.windexlast ≡ r.writer.windexlast
  pub writingflag : r'.writer.writingflag ≡ r.writer.writingflag

-- Small enough to wait for the end of the request, and room for two entries.
pub record Waits (header value : List ℕ) (r : Replies) : Type 0 where
  pub room : r.iov_index + 1 < length r.writer.iovec
  pub indices : r.iov_index + 2 < 2 ^ 31
  pub small : r.totalsize + length header + length value + 2 ≤ 126 * 1024
  pub behind : r.writer.windexlast ≤ r.iov_index + 1
  pub few : r.iov_index + 1 ≤ r.writer.windexlast + 1024

pub add_copy :
    (text : List ℕ) (index : ℕ) (r : Replies)
    → index < length r.writer.iovec
    → add_iov_reply text (length text) true index r ≡ some (length text, added text true index r)
unfolding add_iov_reply
add_copy text index r room =
    let inside : leb (length r.writer.iovec) index ≡ false = ground (arith, room) in
    rw (inside, strncpy_whole text) refl

add_view :
    (ptr bytes : List ℕ) (len index : ℕ) (r : Replies)
    → index < length r.writer.iovec
    → len ≤ length ptr
    → take len ptr ≡ bytes
    → add_iov_reply ptr len false index r ≡ some (len, added bytes false index r)
unfolding add_iov_reply
add_view ptr bytes len index r room fits e =
    let inside : leb (length r.writer.iovec) index ≡ false = ground (arith, room) in
    let memory : ltb (length ptr) len ≡ false = ground (arith, fits) in rw (inside, memory, e) refl

both_added :
    (header : List ℕ) (e : Entry) (r r1 r2 : Replies) (size size2 : ℕ)
    → add_iov_reply header
        (length header)
        true
        r.iov_index
        (record r { iov_index = (atomic_incr2_get_add r.iov_index).1 })
      ≡ some (size, r1)
    → add_iov_reply (drop e.keylen e.bytes) (e.vallen + 2) false (r.iov_index + 1) r1
      ≡ some (size2, r2)
    → queue_entries header e r
      ≡ some record r2 { totalsize = (r2.totalsize + (size + size2)) % 2 ^ 32 }
unfolding queue_entries atomic_incr2_get_add
both_added header e r r1 r2 size size2 p q = rw (p, q, queue_entries) refl

queue_entries-Queued :
    (header : List ℕ) (e : Entry) (key value behind : List ℕ) (r : Replies)
    → Laid e key value (crlf ++ behind)
    → Waits header value r
    → (r' : Replies) × (queue_entries header e r ≡ some r') × Queued header value r r'
unfolding atomic_incr2_get_add
queue_entries-Queued header e key value behind r l w =
    let room = w.room in
    let i = r.iov_index in
    let small = w.small in
    let indices = w.indices in
    let v = l.vallen in
    let r0 : Replies = record r { iov_index = (i + 2) % 2 ^ 32 } in
    let r1 = added header true i r0 in
    let r2 = added (value ++ crlf) false (i + 1) r1 in
    let kept = length-set r.writer.iovec i header in
    let sent = value_sent e key value behind l in
    let fits : e.vallen + 2 ≤ length (drop e.keylen e.bytes) = omega (
      arith,
      ap length sent,
      length-take (e.vallen + 2) (drop e.keylen e.bytes),
      length-append value crlf,
      v,
    ) in
    (
      _,
      both_added header e r r1 r2 (length header) (e.vallen + 2)
          (add_copy header i r0 (omega (arith, room)))
          (add_view (drop e.keylen e.bytes) (value ++ crlf) (e.vallen + 2) (i + 1) r1
            (omega (arith, room, kept)) fits sent),
      record {
        iovec = refl;
        written = (ground (arith, ==_refl i), rw (==_refl (i + 1)) refl);
        iov_index = omega arith;
        totalsize = omega (arith, v, small);
        windexlast = refl;
        writingflag = refl;
      },
    )

flush-Waits :
    (sends : List Send) (header value : List ℕ) (r r' : Replies)
    → Waits header value r
    → Queued header value r r'
    → flush sends (r.iov_index + 1) r' ≡ some r'
unfolding flush
flush-Waits sends header value r r' w q =
    let (room, indices, small, behind, few) : (r.iov_index + 1 < length r.writer.iovec)
        × (r.iov_index + 2 < 2 ^ 31)
        × (r.totalsize + length header + length value + 2 ≤ 126 * 1024)
        × (r.writer.windexlast ≤ r.iov_index + 1)
        × (r.iov_index + 1 ≤ r.writer.windexlast + 1024) =
      (w.room, w.indices, w.small, w.behind, w.few) in
    let y = q.windexlast in
    let total = q.totalsize in
    let seen = q.written.1 in
    let same : all_written r'.written r'.writer.windexlast (r.iov_index + 1) ≡ r.iov_index + 1 =
      ground (arith, seen) in
    let few_bytes : ltb (126 * 1024) r'.totalsize ≡ false = ground (arith, total, small) in
    let few_entries : ltb 1024 ((r.iov_index + 1 + 2 ^ 32 - r'.writer.windexlast) % 2 ^ 32)
        ≡ false =
      ground (arith, y, behind, few, indices) in
    rw (same, few_bytes, few_entries) refl

q_reply_run :
    (sends : List Send) (e e' : Entry) (asked : List ℕ) (r r' r'' : Replies)
    → end_value e ≡ some e'
    → leb (2 ^ 31) e'.vallen ≡ false
    → queue_entries (reply_header asked e'.vallen) e' r ≡ some r'
    → flush sends (r.iov_index + 1) r' ≡ some r''
    → q_reply sends e asked r ≡ some (e', r'')
unfolding q_reply
q_reply_run sends e e' asked r r' r'' ended in_range run flushed =
    rw (ended, in_range, run, flushed, q_reply) refl

-- A record that is laid out with room for the CR LF is replied to by its two entries.
pub q_reply-Queued :
    (sends : List Send) (e : Entry) (key value behind asked : List ℕ) (a b : ℕ) (r : Replies)
    → Laid e key value (a ∷ b ∷ behind)
    → length value < 2 ^ 31
    → Waits (reply_header asked (length value)) value r
    → (e' : Entry) × (r' : Replies) × (q_reply sends e asked r ≡ some (e', r'))
      × Queued (reply_header asked (length value)) value r r'
      × Laid e' key value (crlf ++ behind)
q_reply-Queued sends e key value behind asked a b r l small w =
    let header = reply_header asked (length value) in
    let (e', ended, l') = end_value-Laid e key value behind a b l in
    let (r', run, q) = queue_entries-Queued header e' key value behind r l' w in
    let in_range : leb (2 ^ 31) e'.vallen ≡ false = ground (arith, l'.vallen, small) in
    (
      e',
      r',
      q_reply_run sends e e' asked r r' r' ended in_range
          (ap (λ n. queue_entries (reply_header asked n) e' r) l'.vallen ∙ run)
          (flush-Waits sends header value r r' w q),
      q,
      l',
    )

-- For a message whose key and body are in its memory, with a record below 2 ^ 31 bytes: the record
-- that a set stores, when it is replied to a get while the waiting replies are small and few
-- enough not to be written yet and the table has room, puts two entries behind them: the header line
-- with the key asked for and the value's length, and the value of the set followed by CR LF. The CR
-- LF fits into the record's memory, and the record keeps its key and value.
pub q_reply-store_entry :
    (sends : List Send) (m : Msg) (body asked : List ℕ) (r : Replies)
    → m.cmdptr ≡ some body
    → m.keylen ≤ length m.key
    → m.vallen ≤ length body
    → m.keylen + m.vallen + 34 < 2 ^ 31
    → let header = reply_header asked m.vallen in
      let value = take m.vallen body in
      Waits header value r
      → (e : Entry) × (e' : Entry) × (r' : Replies) × (store_entry m ≡ some e)
        × (q_reply sends e asked r ≡ some (e', r'))
        × Queued header value r r'
        × (e'.bytes ≡ take m.keylen m.key ++ (value ++ (crlf ++ replicate 8 0)))
q_reply-store_entry sends m body asked r c k v small w =
    let value = take m.vallen body in
    let vallen : m.vallen ≡ length value = omega (arith, length-take m.vallen body) in
    let (e, stored, l) = store_entry-Laid m body c k v small in
    let (e', r', run, q, l') =
      q_reply-Queued sends e (take m.keylen m.key) value (replicate 8 0) asked 0 0 r l
        (omega (arith, vallen)) (subst (λ n. Waits (reply_header asked n) value r) vallen w) in
    (
      e,
      e',
      r',
      stored,
      run,
      subst (λ n. Queued (reply_header asked n) value r r') (sym vallen) q,
      l'.bytes,
    )
