-- ===== src/Request.antt =====
-- aConnReq.cpp: the commands of a connection on their way to the store threads. The state that the
-- calls share is a `World`: messages and connections by address, the pools, and for each index of
-- `aTSQGKVdata` the messages that were put there. `none` is a call that blocks or aborts.
pub mod Order
pub mod Keys
pub mod Stuck
pub mod Notify
use acached.Prelude.{
  ℕ, zero, suc, ◌+◌, ◌-◌, ◌*◌, ◌%◌, ◌^◌, ◌≡◌, refl, List, [], ◌∷◌, ◌++◌, Bool, true, false, ◌||◌,
  Option, none, some, ◌==◌, ltb, leb, if◌then◌else◌, length, drop,
}
use acached.Atomic.{atomic_is_set, atomic_set, atomic_reset}
use acached.Queue.{Ptr, null}
use acached.Queue.Shared.{SharedQ, a_sq_put, a_sq_get}
use acached.Queue.FreeBusy.Shared.{FbSharedQ}
use acached.Pool.{a_msg_allocate, a_msg_release, a_conn_release}
use acached.Conn.{cmd_wait, aconn_iov_req_size_init, desc_bytes, bitset_bytes}
use acached.Global.{Sga, kvdata_index}
use acached.Parse.Tokens.Words.{words}
use acached.Parse.Command.{CmdType, gets, set, quit, version}
use acached.Parse.Header.{Cmd, c_string, string_at}
use acached.Receive.{Buffer, Receiver, update}
use acached.Message.{Msg, kvdata, init, msg_hdr_in_init}

-- The part of a connection that the calls read and write.
pub record Connection : Type 0 where
  pub receiver : Receiver
  pub c_sock_fd : ℕ
  pub busy : ℕ
  pub conc_pending : ℕ
  pub req_count : ℕ
  pub reply_count : ℕ
  pub pending_cmd_q : SharedQ

pub record World : Type 0 where
  pub sga : Sga
  pub messages : Ptr → Msg
  pub connections : Ptr → Connection
  pub msg_pool : FbSharedQ
  pub conn_pool : FbSharedQ
  pub posted : ℕ → List Ptr
  -- the sockets that were closed
  pub closed : List ℕ

abbrev pub Run : Type 0 → Type 0
Run A = World → Option (A × World)

infixl 5 ◌>>=◌ ◌>>◌
abbrev pub ◌>>=◌ : {A B : Type 0} → Run A → (A → Run B) → Run B
◌>>=◌ m f w = elim (m w) [ none ↦ none | some (a, w') ↦ f a w' ]

abbrev pub ◌>>◌ : {B : Type 0} → Run (Unit {0}) → Run B → Run B
m >> k = m >>= λ _. k

abbrev pub pure : {A : Type 0} → A → Run A
pure a w = some (a, w)

pub bind_lem :
    {A B : Type 0} (m : Run A) (f : A → Run B) (w w' : World) (a : A)
    → m w ≡ some (a, w')
    → (m >>= f) w ≡ f a w'
bind_lem m f w w' a e = rw (e, ◌>>=◌) refl

abbrev pub fail : {A : Type 0} → Run A
fail w = none

abbrev pub with_connection : {A : Type 0} → Ptr → (Connection → Run A) → Run A
with_connection this f w = f (w.connections this) w

abbrev pub with_message : {A : Type 0} → Ptr → (Msg → Run A) → Run A
with_message ptr f w = f (w.messages ptr) w

unfoldable pub put_connection : Ptr → Connection → Run (Unit {0})
put_connection this c w =
    some (tt, record w { connections = λ p. if p == this then c else w.connections p })

unfoldable pub put_message : Ptr → Msg → Run (Unit {0})
put_message ptr m w = some (tt, record w { messages = λ p. if p == ptr then m else w.messages p })

abbrev pub on_msg_pool : {A : Type 0} → (FbSharedQ → Option (A × FbSharedQ)) → Run A
on_msg_pool f w = elim (f w.msg_pool) [
  | none ↦ none
  | some (a, q) ↦ some (a, record w { msg_pool = q })
]

abbrev pub on_conn_pool : {A : Type 0} → (FbSharedQ → Option (A × FbSharedQ)) → Run A
on_conn_pool f w = elim (f w.conn_pool) [
  | none ↦ none
  | some (a, q) ↦ some (a, record w { conn_pool = q })
]

abbrev pub on_pending : {A : Type 0} → Ptr → (SharedQ → Option (A × SharedQ)) → Run A
on_pending this f w =
    let c = w.connections this in
    elim (f c.pending_cmd_q) [
      | none ↦ none
      | some (a, q) ↦ some (
        a,
        record w {
          connections = λ p. if p == this then record c { pending_cmd_q = q } else w.connections p;
        },
      )
    ]

-- `SGAptr->aTSQGKVdata[…]->aTSQputMsg(aM)` with the index of the message's hash value.
unfoldable pub post2kvdata : Ptr → Run (Unit {0})
unfolding kvdata_index
post2kvdata ptr w =
    let index = kvdata_index w.sga (w.messages ptr).hashval in
    some (tt, record w { posted = λ i. if i == index then w.posted i ++ ptr ∷ [] else w.posted i })

-- `aConn::Reset` on the part that is modelled here.
abbrev reset_buffer : ℕ → Buffer → Buffer
reset_buffer i b =
    let cleared = record b { memory = []; iov_len = 0 } in
    if ltb (i * bitset_bytes) (aconn_iov_req_size_init * desc_bytes)
    then record cleared { hdr = false; hdr_part = false; body = false; body_part = false }
    else cleared

unfoldable pub reset : Connection → Connection
reset c = record c {
  receiver = record c.receiver {
    state = cmd_wait;
    buffers = λ i. reset_buffer i (c.receiver.buffers i);
    iov_index = 0;
    aerrnum = 0;
    aerrtype = 0;
  };
  conc_pending = 0;
}

-- threadComm.cpp: with the connection of the event. Its event and watcher are libevent's.
unfoldable pub close_connection : ℕ → Ptr → Run (Unit {0})
unfolding reset put_connection a_conn_release
close_connection fd this = do
  λ w. some (tt, record w { closed = w.closed ++ fd ∷ [] })
  with_connection this (λ c. put_connection this (reset c))
  _ ← on_conn_pool (a_conn_release this)
  pure tt

-- `FreeIov`: the memory is given back.
unfoldable pub free_iov : ℕ → Receiver → Receiver
unfolding update
free_iov index r =
    update index
      (record (r.buffers index) { memory = []; iov_len = 0; base_offset = 0; alloc_size = 0 }) r

-- The buffers of the header, from its index down to 0, which their descriptions have to name.
unfoldable pub free_headers : ℕ → Receiver → Option Receiver
unfolding free_iov
free_headers zero r =
    let b = r.buffers 0 in if b.hdr || b.hdr_part then some (free_iov 0 r) else none
free_headers (suc index) r =
    let b = r.buffers (suc index) in
    let below = free_headers index (free_iov (suc index) r) in
    if b.hdr || b.hdr_part then below else none

-- `__sync_bool_compare_and_swap(&(this->Busy), 1, 0)`, whose failure is only reported.
abbrev pub busy_reset : Connection → Connection
busy_reset c = record c { busy = if c.busy == 1 then 0 else c.busy }

-- One more request, and the end of the pending state behind the last key.
unfoldable pub counted : List (List ℕ) → Connection → Connection
unfolding atomic_reset
counted [] c = record c {
  req_count = (c.req_count + 1) % 2 ^ 32;
  conc_pending = (atomic_reset c.conc_pending).1;
}
counted (key ∷ keys) c = record c { req_count = (c.req_count + 1) % 2 ^ 32 }

-- The hash function, and the addresses that a refill of the message pool takes.
module _ (hash : List ℕ → ℕ) (fresh : ℕ → List Ptr) where
  -- One refill is enough: it puts objects into the free queue.
  unfoldable pub allocate : Run Ptr
  unfolding a_msg_allocate
  allocate = on_msg_pool (a_msg_allocate 2 fresh)

  -- The loop over the keys, `strtok`'s words behind the first.
  unfoldable pub post_keys : Ptr → List (List ℕ) → Run (Unit {0})
  unfolding put_message put_connection post2kvdata counted
  post_keys this [] = pure tt
  post_keys this (key ∷ keys) =
      let rest = post_keys this keys in
      do
        ptr ← allocate
        with_connection this (λ c.
            elim (msg_hdr_in_init hash key (length key) 0 (init kvdata this c.receiver.cmd.ctype)) [
              | none ↦ fail
              | some m ↦ do
                put_message ptr m
                put_connection this (counted keys c)
                post2kvdata ptr
                rest
            ])

  unfoldable pub post2kvdata_gets : Ptr → Ptr → Run (Unit {0})
  unfolding post_keys put_connection a_msg_release
  post2kvdata_gets this cmd =
      let with_text = λ (text : List ℕ). (do
        with_connection this
            (λ c. put_connection this (record c { conc_pending = (atomic_set c.conc_pending).1 }))
        post_keys this (drop 1 (words text))
        _ ← on_msg_pool (a_msg_release cmd)
        pure tt) in
      with_message cmd (λ m. elim m.cmdptr [
        | none ↦ fail
        | some memory ↦ elim (c_string memory) [ none ↦ fail | some text ↦ with_text text ]
      ])

  -- A message that is taken, by the type of the connection's present command.
  unfoldable pub dispatch : Ptr → Ptr → Run (Unit {0})
  unfolding post2kvdata_gets close_connection put_connection a_msg_release post2kvdata
  dispatch this ptr = with_message ptr (λ m. with_connection m.a_c (λ c. elim c.receiver.cmd.ctype [
    | gets ↦ post2kvdata_gets this ptr
    | quit ↦ do
      close_connection c.c_sock_fd m.a_c
      with_connection this (λ c. put_connection this (busy_reset c))
      _ ← on_msg_pool (a_msg_release ptr)
      pure tt
    | _ ↦ post2kvdata ptr
  ]))

  -- `this->PendingCmdQ->aSQput(aM)`
  unfoldable pub queue : Ptr → Ptr → Run (Unit {0})
  unfolding a_sq_put
  queue this ptr = on_pending this (a_sq_put ptr) >>= λ _. pure tt

  -- With the first pending message, or `NULL`.
  unfoldable pub take_first : Ptr → Ptr → Ptr → Run (Unit {0})
  unfolding dispatch queue put_connection
  take_first this ptr first =
      let freed = with_connection this (λ c. put_connection this (busy_reset c)) in
      let own = if ptr == null then freed else dispatch this ptr in
      let pending = (if ptr == null then pure tt else queue this ptr) >> dispatch this first in
      if first == null then own else pending

  unfoldable pub set_busy : Ptr → Run (Unit {0})
  unfolding put_connection
  set_busy this = with_connection this (λ c. put_connection this (record c { busy = 1 }))

  -- `ptr` is `NULL` when only the pending messages are looked for.
  unfoldable pub post2kvdata_tsq : Ptr → Ptr → Run (Unit {0})
  unfolding take_first queue set_busy a_sq_get
  post2kvdata_tsq this ptr =
      let take = set_busy this >> (on_pending this a_sq_get >>= take_first this ptr) in
      with_connection this (λ c. if c.busy == 0 then take else queue this ptr)

  unfoldable pub post2kvdata_set : Ptr → Run (Unit {0})
  unfolding allocate put_message put_connection free_headers post2kvdata_tsq
  post2kvdata_set this = do
    ptr ← allocate
    with_connection this (λ c.
        let r = c.receiver in
        let cmd = r.cmd in
        elim (msg_hdr_in_init hash (string_at cmd.key 0) cmd.keylen 0
          (init kvdata this cmd.ctype)) [
            | none ↦ fail
            | some m ↦ do
              put_message ptr (record m {
                flag = cmd.flags;
                exptime = cmd.exptime;
                vallen = cmd.datalen;
                cmdptr = some (r.buffers r.iov_index).memory;
              })
              elim (free_headers r.iov_index_hdr r) [
                | none ↦ fail
                | some freed ↦ put_connection this (record c { receiver = freed })
              ]
              post2kvdata_tsq this ptr
          ])

  unfoldable pub post2kvdata_gets_pre : Ptr → Run (Unit {0})
  unfolding allocate put_message post2kvdata_tsq
  post2kvdata_gets_pre this = with_connection this (λ c.
      let r = c.receiver in
      let m = init kvdata this r.cmd.ctype in
      if r.iov_index == 0
      then (do
        ptr ← allocate
        put_message ptr (record m { cmdptr = some (r.buffers r.iov_index).memory })
        post2kvdata_tsq this ptr)
      else fail)

  unfoldable pub post2kvdata_quit : Ptr → Run (Unit {0})
  unfolding allocate put_message post2kvdata_tsq
  post2kvdata_quit this = do
    ptr ← allocate
    with_connection this (λ c. put_message ptr (init kvdata this c.receiver.cmd.ctype))
    post2kvdata_tsq this ptr

  -- `aConn::Post2KVdata`, `true` for 0 and `false` for -1
  unfoldable pub post_command : Ptr → Run Bool
  unfolding post2kvdata_set post2kvdata_gets_pre post2kvdata_quit
  post_command this = with_connection this (λ c. elim c.receiver.cmd.ctype [
    | gets ↦ post2kvdata_gets_pre this >>= λ _. pure true
    | set ↦ post2kvdata_set this >>= λ _. pure true
    | quit ↦ post2kvdata_quit this >>= λ _. pure true
    | version ↦ pure false
  ])
