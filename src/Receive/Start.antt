-- ===== src/Receive/Start.antt =====
-- The first call of `ProcessDataRecv` for a body, with the bytes that came with the header.
use acached.Prelude.{
  ℕ, ◌+◌, ◌-◌, ◌%◌, ◌^◌, ◌≤◌, ◌<◌, ◌≡◌, refl, ap, ◌∙◌, List, [], ◌∷◌, true, false, ◌||◌, some, ◌==◌,
  ltb, leb, if◌then◌else◌, length, take, drop, arith, ==_refl,
}
use acached.Conn.{body_wait, aconn_iov_req_size_init}
use acached.Receive.{
  Receiver, Input, update, body_read, opened, pending_bytes, copied_all, copied, copy_pending,
  body_start, receive_body, process_data_recv,
}
use acached.Receive.Body.{current, process_body, held-overwrite}

-- The body is waited for, as many bytes of it as these came with the header, and the next index is
-- clear.
pub record Waiting (r : Receiver) (pending : List ℕ) : Type 0 where
  pub state : r.state ≡ body_wait
  pub not_begun : (current r).body_part ≡ false
  pub in_arrays : r.iov_index + 1 < aconn_iov_req_size_init
  pub clear_len : (r.buffers (r.iov_index + 1)).iov_len ≡ 0
  pub clear_offset : (r.buffers (r.iov_index + 1)).base_offset ≡ 0
  pub flag : r.data_pending_read ≡ (if length pending == 0 then 0 else 1)

-- They stand behind the header in its buffer.
pub record Leftover (r : Receiver) (pending : List ℕ) : Type 0 where
  pub iov_len : (current r).iov_len ≡ (current r).base_offset + length pending
  pub small : (current r).iov_len < 2 ^ 32
  pub held : take (length pending) (drop (current r).base_offset (current r).memory) ≡ pending

pub start_body :
    (input : Input) (r : Receiver)
    → (r.cmd.datalen == 0) ≡ false
    → (current r).body_part ≡ false
    → receive_body input r ≡ body_start input r
unfolding receive_body
start_body input r some_data part = rw (some_data, part) refl

body_start_empty :
    (input : Input) (r : Receiver)
    → leb aconn_iov_req_size_init (r.iov_index + 1) || leb (2 ^ 31) ((r.cmd.datalen + 2) % 2 ^ 32)
      ≡ false
    → (r.data_pending_read == 0) ≡ true
    → body_start input r ≡ some (body_read input 0 ((r.cmd.datalen + 2) % 2 ^ 32) (opened input r))
unfolding body_start
body_start_empty input r guard flag = rw (guard, flag) refl

pub body_start_pending :
    (input : Input) (r : Receiver)
    → leb aconn_iov_req_size_init (r.iov_index + 1) || leb (2 ^ 31) ((r.cmd.datalen + 2) % 2 ^ 32)
      ≡ false
    → (r.data_pending_read == 0) ≡ false
    → body_start input r ≡ some (copy_pending input r.iov_index (pending_bytes r) (opened input r))
unfolding body_start
body_start_pending input r guard flag = rw (guard, flag) refl

copy_pending_all :
    (input : Input) (src pending : ℕ) (r : Receiver)
    → pending ≤ (current r).alloc_size
    → copy_pending input src pending r
      ≡ body_read input pending ((current r).alloc_size - pending) (copied_all src pending r)
unfolding copy_pending
copy_pending_all input src pending r fits =
    let ret : (if leb (current r).alloc_size pending then (current r).alloc_size else pending)
        ≡ pending =
      ground (arith, fits) in
    let not_more : ltb (current r).alloc_size pending ≡ false = ground (arith, fits) in
    let size = (current r).alloc_size in
    ap (λ n. body_read input n (size - n) (copied (ltb size pending) src n r)) ret
    ∙ ap (λ b. body_read input pending (size - pending) (copied b src pending r)) not_more

-- What the call reads into.
pub record Begun (input : Input) (r : Receiver) (pending : List ℕ) : Type 0 where
  pub next : Receiver
  pub run :
      process_data_recv input r
      ≡ some (body_read input (length pending) (r.cmd.datalen + 2 - length pending) next)
  pub same : next.cmd ≡ r.cmd
  pub iov_len : (current next).iov_len ≡ length pending
  pub base_offset : (current next).base_offset ≡ 0
  pub alloc_size : (current next).alloc_size ≡ r.cmd.datalen + 2
  pub not_pending : next.data_pending_read ≡ 0
  pub held : take (length pending) (current next).memory ≡ pending
  pub state : next.state ≡ r.state
  pub index : next.iov_index ≡ r.iov_index + 1
  pub part : (current next).body_part ≡ (r.buffers (r.iov_index + 1)).body_part
  pub later : next.buffers (r.iov_index + 1 + 1) ≡ r.buffers (r.iov_index + 1 + 1)

module _ (input : Input) (r : Receiver) (some_data : 0 < r.cmd.datalen)
    (small : r.cmd.datalen + 2 < 2 ^ 31) where
  abbrev size : ℕ
  size = (r.cmd.datalen + 2) % 2 ^ 32

  size_lem : size ≡ r.cmd.datalen + 2
  size_lem = omega arith

  pub guard :
      r.iov_index + 1 < aconn_iov_req_size_init
      → leb aconn_iov_req_size_init (r.iov_index + 1) || leb (2 ^ 31) size ≡ false
  guard in_arrays =
      let a : leb aconn_iov_req_size_init (r.iov_index + 1) ≡ false = ground (arith, in_arrays) in
      let b : leb (2 ^ 31) size ≡ false = ground arith in rw (a, b) refl

  pub Begun-empty : Waiting r [] → Begun input r []
  unfolding update
  Begun-empty w =
      let flag = w.flag in
      let above : (r.iov_index + 1 + 1 == r.iov_index + 1) ≡ false = ground arith in
      record {
        next = opened input r;
        run =
            process_body input r w.state
            ∙ start_body input r (ground arith) w.not_begun
            ∙ body_start_empty input r (guard w.in_arrays) (ground (arith, flag))
            ∙ ap (λ n. some (body_read input 0 n (opened input r))) (size_lem ∙ omega arith);
        same = refl;
        iov_len = rw (==_refl (r.iov_index + 1)) w.clear_len;
        base_offset = rw (==_refl (r.iov_index + 1)) w.clear_offset;
        alloc_size = rw (==_refl (r.iov_index + 1)) size_lem;
        not_pending = flag;
        held = refl;
        state = refl;
        index = refl;
        part = rw (==_refl (r.iov_index + 1)) refl;
        later = rw above refl;
      }

  Begun-pending :
      (p : ℕ) (ps : List ℕ)
      → Waiting r (p ∷ ps)
      → Leftover r (p ∷ ps)
      → length (p ∷ ps) ≤ r.cmd.datalen + 2
      → Begun input r (p ∷ ps)
  unfolding update
  Begun-pending p ps w k fits =
      let pending = p ∷ ps in
      let len = k.iov_len in
      let hi = k.small in
      let flag : r.data_pending_read ≡ 1 = ground (arith, w.flag) in
      let count : pending_bytes r ≡ length pending = omega arith in
      let src = r.iov_index in
      let other : (src + 1 == src) ≡ false = ground arith in
      let back : (src == src + 1) ≡ false = ground arith in
      let self = ==_refl (src + 1) in
      let above : (src + 1 + 1 == src + 1) ≡ false = ground arith in
      let above_src : (src + 1 + 1 == src) ≡ false = ground arith in
      let alloc : (current (opened input r)).alloc_size ≡ r.cmd.datalen + 2 = rw self size_lem in
      record {
        next = copied_all src (length pending) (opened input r);
        run =
            process_body input r w.state
            ∙ start_body input r (ground arith) w.not_begun
            ∙ body_start_pending input r (guard w.in_arrays) (ground (arith, flag))
            ∙ ap (λ n. some (copy_pending input src n (opened input r))) count
            ∙ ap some (
                copy_pending_all input src (length pending) (opened input r)
                  (rw self (omega (arith, fits, size_lem))))
            ∙ ap
                (λ a. some (
                  body_read input (length pending) (a - length pending)
                    (copied_all src (length pending) (opened input r))))
                alloc;
        same = refl;
        iov_len = rw (other, self) (omega (arith, w.clear_len));
        base_offset = rw (other, self) w.clear_offset;
        alloc_size = rw (other, self) size_lem;
        not_pending = refl;
        held = rw (other, self, back, k.held) (held-overwrite [] pending input.fresh refl);
        state = refl;
        index = refl;
        part = rw (other, self) refl;
        later = rw (above, above_src) refl;
      }

  -- With or without pending bytes.
  pub Begun-start :
      (pending : List ℕ)
      → Waiting r pending
      → Leftover r pending
      → length pending ≤ r.cmd.datalen + 2
      → Begun input r pending
  Begun-start [] w k fits = Begun-empty w
  Begun-start (p ∷ ps) w k fits = Begun-pending p ps w k fits
