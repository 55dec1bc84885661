-- ===== src/Reply/Queued.antt =====
-- aConnReply.cpp: `AddIOVReply` and `QReply`, which queue a record on the connection. The memory of a
-- record from `data` on is the list of its bytes.
use acached.Prelude.{
  ℕ, zero, suc, ◌+◌, ◌-◌, ◌*◌, ◌/◌, ◌%◌, ◌^◌, List, [], ◌∷◌, ◌++◌, Bool, true, false, ◌&&◌, ◌||◌,
  not, Option, none, some, ◌==◌, ltb, leb, if◌then◌else◌, length, take, drop, set,
}
use acached.Atomic.{atomic_incr2_get_add}
use acached.Parse.Header.{strncpy}
use acached.Reply.{Send, Outcome, wrote, Writer, write_iov_reply}
use acached.Table.Memory.{Entry}

-- The reply table with two bits of each description.
pub record Replies : Type 0 where
  pub writer : Writer
  pub written : ℕ → Bool
  pub malloced : ℕ → Bool
  pub iov_index : ℕ
  pub totalsize : ℕ

abbrev pub added : List ℕ → Bool → ℕ → Replies → Replies
added bytes do_malloc index r = record r {
  writer = record r.writer { iovec = set r.writer.iovec index bytes };
  written = λ i. if i == index then true else r.written i;
  malloced = λ i. if (i == index) && do_malloc then true else r.malloced i;
}

-- `none`: an index behind the table, or a read behind the memory at `ptr`. A copy takes the text
-- up to its NUL, padded with NULs.
unfoldable pub add_iov_reply : List ℕ → ℕ → Bool → ℕ → Replies → Option (ℕ × Replies)
unfolding strncpy
add_iov_reply ptr len do_malloc index r =
    let bytes = if do_malloc then strncpy ptr len else take len ptr in
    if leb (length r.writer.iovec) index || (not do_malloc && ltb (length ptr) len)
    then none
    else some (len, added bytes do_malloc index r)

-- `%d` of a number below 10 ^ 10.
unfoldable pub decimal_loop : ℕ → ℕ → List ℕ → List ℕ
decimal_loop zero n text = text
decimal_loop (suc places) n text =
    let longer = (b'0' + n % 10) ∷ text in
    let rest = decimal_loop places (n / 10) longer in if ltb n 10 then longer else rest

unfoldable pub decimal : ℕ → List ℕ
unfolding decimal_loop
decimal n = decimal_loop 10 n []

abbrev pub crlf : List ℕ
crlf = b'\r' ∷ b'\n' ∷ []

-- `snprintf(bufptr, 512, "VALUE %s 0 %d 1\r\n", key, KVdataptr->vallen)`
unfoldable pub reply_header : List ℕ → ℕ → List ℕ
unfolding decimal
reply_header key vallen =
    let value_ = b'V' ∷ b'A' ∷ b'L' ∷ b'U' ∷ b'E' ∷ b' ' ∷ [] in
    let zero_ = b' ' ∷ b'0' ∷ b' ' ∷ [] in
    take 511 (value_ ++ (key ++ (zero_ ++ (decimal vallen ++ (b' ' ∷ b'1' ∷ crlf)))))

-- `memcpy(tmpptr, "\r\n", 2)` behind the value, `none` when it does not fit.
unfoldable pub end_value : Entry → Option Entry
end_value e =
    let behind = e.keylen + e.vallen in
    if ltb (length e.bytes) (behind + 2)
    then none
    else some record e { bytes = take behind e.bytes ++ (crlf ++ drop (behind + 2) e.bytes) }

-- The for loop tests the entry at `index`, not the one at `i`.
abbrev pub all_written : (ℕ → Bool) → ℕ → ℕ → ℕ
all_written written y index = if ltb y index && not (written index) then y else index

-- A large total or a long range is written.
unfoldable pub flush : List Send → ℕ → Replies → Option Replies
unfolding write_iov_reply
flush sends index r =
    let y = r.writer.windexlast in
    let index = all_written r.written y index in
    let count = (index + 2 ^ 32 - y) % 2 ^ 32 in
    let after = λ (o : Outcome) (w : Writer). elim o as (λ _. Replies) [
      | wrote ret ↦ record r { writer = w; totalsize = (r.totalsize + 2 ^ 32 - ret) % 2 ^ 32 }
      | _ ↦ record r { writer = w }
    ] in
    let written : Option Replies = elim (write_iov_reply sends y count r.writer) [
      | none ↦ none
      | some (o, w) ↦ some (after o w)
    ] in
    if ltb (126 * 1024) r.totalsize || ltb 1024 count then written else some r

-- The two entries of a record, in the indices that are reserved for them.
unfoldable pub queue_entries : List ℕ → Entry → Replies → Option Replies
unfolding add_iov_reply atomic_incr2_get_add
queue_entries header e r =
    let (index, new) = atomic_incr2_get_add r.iov_index in
    elim (add_iov_reply header (length header) true index (record r { iov_index = new }))
      as (λ _. Option Replies) [
        | none ↦ none
        | some (size, r) ↦
            elim (add_iov_reply (drop e.keylen e.bytes) (e.vallen + 2) false (index + 1) r)
              as (λ _. Option Replies) [
                | none ↦ none
                | some (size2, r) ↦
                    some record r { totalsize = (r.totalsize + (size + size2)) % 2 ^ 32 }
              ]
      ]

-- A length that is negative as an `int` is left out, as `none`. The record's memory is changed.
unfoldable pub q_reply : List Send → Entry → List ℕ → Replies → Option (Entry × Replies)
unfolding end_value reply_header queue_entries flush
q_reply sends e key r =
    let queued = λ (e : Entry).
      elim (queue_entries (reply_header key e.vallen) e r) as (λ _. Option (Entry × Replies)) [
        | none ↦ none
        | some r' ↦ elim (flush sends (r.iov_index + 1) r') as (λ _. Option (Entry × Replies)) [
          | none ↦ none
          | some r'' ↦ some (e, r'')
        ]
      ] in
    elim (end_value e) as (λ _. Option (Entry × Replies)) [
      | none ↦ none
      | some e ↦ if leb (2 ^ 31) e.vallen then none else queued e
    ]
