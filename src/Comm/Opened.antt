-- ===== src/Comm/Opened.antt =====
-- New sockets from the pipe, each with a connection of the pool.
use mathlib.Core.List.{append_assoc, append-nil}
use acached.Prelude.{
  ℕ, ◌≡◌, ◌≢◌, refl, sym, ap, ◌∙◌, List, [], ◌∷◌, ◌++◌, false, none, some, ◌==◌, if◌then◌else◌,
  arith, ==_refl, length, map,
}
use acached.Queue.{Ptr, null}
use acached.Pool.{a_sga_allocate, a_conn_allocate}
use acached.Pool.Conserve.{idle, allocate_lem}
use acached.Request.{
  Connection, World, Run, ◌>>=◌, bind_lem, on_conn_pool, with_connection, put_connection, reset,
  post2kvdata_tsq,
}
use acached.Request.Order.{free_queue, with_pending, post2kvdata_tsq_busy}
use acached.Request.Keys.{Real}
use acached.Comm.{PipeMsg, init_fd, open_connection, process_pipe_msg, process_new_fd}
use acached.Comm.Failed.{on_conn_pool_lem}

-- A pooled connection with a new socket: what `Reset` leaves alone is its last client's.
abbrev pub with_socket : ℕ → Connection → Connection
with_socket newfd c = reset (record c { c_sock_fd = newfd })

abbrev pub after_open : Ptr → ℕ → ℕ → ℕ → List Ptr → List Ptr → World → World
after_open p newfd kind type free busy w = record w {
  connections = λ q. if q == p then with_socket newfd (w.connections p) else w.connections q;
  conn_pool = idle kind type free (busy ++ p ∷ []);
}

-- Each socket has its connection.
abbrev pub AllOpened : List ℕ → List Ptr → World → World → Type 0
AllOpened [] ptrs w w' = Unit {0}
AllOpened (fd ∷ fds) [] w w' = Unit {0}
AllOpened (fd ∷ fds) (p ∷ ptrs) w w' =
    (w'.connections p ≡ with_socket fd (w.connections p)) × AllOpened fds ptrs w w'

abbrev pub NotIn : Ptr → List Ptr → Type 0
NotIn p [] = Unit {0}
NotIn p (q ∷ ptrs) = (p ≢ q) × NotIn p ptrs

abbrev pub Distinct : List Ptr → Type 0
Distinct [] = Unit {0}
Distinct (p ∷ ptrs) = NotIn p ptrs × Distinct ptrs

pub record Opened (fds : List ℕ) (ptrs : List Ptr) (w w' : World) : Type 0 where
  pub sockets : AllOpened fds ptrs w w'
  pub others : (p : Ptr) → NotIn p ptrs → w'.connections p ≡ w.connections p
  pub posted : w'.posted ≡ w.posted
  pub closed : w'.closed ≡ w.closed
  pub messages : w'.messages ≡ w.messages
  pub msg_pool : w'.msg_pool ≡ w.msg_pool
  pub sga : w'.sga ≡ w.sga

-- The connections that are not given out first keep what they had.
AllOpened-after :
    (fds : List ℕ) (ptrs : List Ptr) (p : Ptr) (fd kind type : ℕ) (free busy : List Ptr)
    (w w' : World)
    → NotIn p ptrs
    → AllOpened fds ptrs (after_open p fd kind type free busy w) w'
    → AllOpened fds ptrs w w'
AllOpened-after [] ptrs p fd kind type free busy w w' n a = tt
AllOpened-after (f ∷ fds) [] p fd kind type free busy w w' n a = tt
AllOpened-after (f ∷ fds) (q ∷ ptrs) p fd kind type free busy w w' (ne, n) (e, a) =
    let other : (q == p) ≡ false = ground (arith, ne) in
    (rw other at e, AllOpened-after fds ptrs p fd kind type free busy w w' n a)

module _ (hash : List ℕ → ℕ) (fresh : ℕ → List Ptr) where
  open_first :
      (newfd kind type : ℕ) (p : Ptr) (free busy : List Ptr) (w : World)
      → p ≢ null
      → w.conn_pool ≡ idle kind type (p ∷ free) busy
      → open_connection hash fresh newfd w ≡ some (tt, after_open p newfd kind type free busy w)
  unfolding open_connection put_connection a_conn_allocate
  open_first newfd kind type p free busy w real e =
      let found : (p == null) ≡ false = ground (arith, real) in
      let taken : a_conn_allocate w.conn_pool ≡ some (p, idle kind type free (busy ++ p ∷ [])) =
        ap a_sga_allocate e ∙ allocate_lem kind type (p ∷ free) busy in
      bind_lem (on_conn_pool a_conn_allocate) _ w _ p (on_conn_pool_lem a_conn_allocate w p _ taken)
      ∙ rw (found, with_connection) refl

  -- When the connection pool's mutexes are free and it has a free connection that is not `NULL` for
  -- each new socket of the pipe, no two the same: the sockets get these connections in order, each
  -- reset and with what `Reset` leaves alone of its last client; the other connections, the
  -- messages and their pool, the sizes, the store queues and the closed sockets are as they were, and the connections stand in the pool's busy
  -- queue in that order.
  pub process_new_fd-Opened :
      (fds : List ℕ) (ptrs more busy : List Ptr) (kind type : ℕ) (w : World)
      → length fds ≡ length ptrs
      → Real ptrs
      → Distinct ptrs
      → w.conn_pool ≡ idle kind type (ptrs ++ more) busy
      → (w' : World) × (process_new_fd hash fresh (map init_fd fds) w ≡ some (tt, w'))
        × Opened fds ptrs w w'
        × (w'.conn_pool ≡ idle kind type more (busy ++ ptrs))
  unfolding process_new_fd process_pipe_msg
  process_new_fd-Opened [] [] more busy kind type w n r d e = (
    w,
    refl,
    record {
      sockets = tt;
      others = λ p q. refl;
      posted = refl;
      closed = refl;
      messages = refl;
      msg_pool = refl;
      sga = refl;
    },
    e ∙ ap (idle kind type more) (sym (append-nil busy)),
  )
  process_new_fd-Opened [] (p ∷ ptrs) more busy kind type w n r d e = absurd (omega (arith, n))
  process_new_fd-Opened (fd ∷ fds) [] more busy kind type w n r d e = absurd (omega (arith, n))
  process_new_fd-Opened (fd ∷ fds) (p ∷ ptrs) more busy kind type w n (real, r) (ne, d) e =
      let w1 = after_open p fd kind type (ptrs ++ more) busy w in
      let (w', run, o, pool) =
        process_new_fd-Opened fds ptrs more (busy ++ p ∷ []) kind type w1 (omega (arith, n)) r d
          refl in
      (
        w',
        bind_lem (open_connection hash fresh fd) (λ _. process_new_fd hash fresh (map init_fd fds))
              w w1 tt (open_first fd kind type p (ptrs ++ more) busy w real e)
            ∙ run,
        record {
          sockets = (
            o.others p ne ∙ rw (==_refl p) refl,
            AllOpened-after fds ptrs p fd kind type (ptrs ++ more) busy w w' ne o.sockets,
          );
          others = λ q (other, rest).
              let this : (q == p) ≡ false = ground (arith, other) in o.others q rest ∙ rw this refl;
          posted = o.posted;
          closed = o.closed;
          messages = o.messages;
          msg_pool = o.msg_pool;
          sga = o.sga;
        },
        pool ∙ ap (idle kind type more) (append_assoc busy (p ∷ []) ptrs),
      )

  open_none :
      (newfd kind type : ℕ) (busy : List Ptr) (w : World)
      → w.conn_pool ≡ idle kind type [] busy
      → open_connection hash fresh newfd w ≡ none
  unfolding open_connection a_conn_allocate
  open_none newfd kind type busy w e =
      let taken : a_conn_allocate w.conn_pool ≡ some (null, idle kind type [] (busy ++ null ∷ [])) =
        ap a_sga_allocate e ∙ allocate_lem kind type [] busy in
      bind_lem (on_conn_pool a_conn_allocate) _ w _ null
        (on_conn_pool_lem a_conn_allocate w null _ taken)

  bind_none :
      {A B : Type 0} (m : Run A) (f : A → Run B) (w : World) → m w ≡ none → (m >>= f) w ≡ none
  bind_none m f w e = rw (e, ◌>>=◌) refl

  -- When the connection pool's mutexes are free and it has no free connection, the next new socket
  -- aborts the server.
  pub process_new_fd_exhausted :
      (fd kind type : ℕ) (messages : List PipeMsg) (busy : List Ptr) (w : World)
      → w.conn_pool ≡ idle kind type [] busy
      → process_new_fd hash fresh (init_fd fd ∷ messages) w ≡ none
  unfolding process_new_fd process_pipe_msg
  process_new_fd_exhausted fd kind type messages busy w e =
      bind_none (open_connection hash fresh fd) (λ _. process_new_fd hash fresh messages) w
        (open_none fd kind type busy w e)

  -- When the first free connection of the pool was closed by its last client while a command was with
  -- the store threads, so that it is busy, with a free mutex: a new socket gets it busy and with the
  -- messages that were pending then, and a command of the new client goes behind those, with
  -- nothing posted to a store thread.
  pub reused_busy :
      (newfd kind type qtype : ℕ) (p ptr : Ptr) (free busy items : List Ptr) (w : World)
      → p ≢ null
      → w.conn_pool ≡ idle kind type (p ∷ free) busy
      → (w.connections p).busy ≢ 0
      → (w.connections p).pending_cmd_q ≡ free_queue qtype items
      → (w' : World) × (process_pipe_msg hash fresh (init_fd newfd) w ≡ some (tt, w'))
        × ((w'.connections p).c_sock_fd ≡ newfd)
        × (w'.posted ≡ w.posted)
        × (post2kvdata_tsq hash fresh p ptr w'
            ≡ some (tt, with_pending p qtype (items ++ ptr ∷ []) w'))
  unfolding process_pipe_msg
  reused_busy newfd kind type qtype p ptr free busy items w real e taken pending =
      let w' = after_open p newfd kind type free busy w in
      (
        w',
        open_first newfd kind type p free busy w real e,
        rw (==_refl p) refl,
        refl,
        post2kvdata_tsq_busy hash fresh p ptr qtype items w' (λ z. taken (rw (==_refl p) at z))
            (rw (==_refl p) pending),
      )
