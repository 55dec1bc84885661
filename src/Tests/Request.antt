-- ===== src/Tests/Request.antt =====
-- A connection at address 1 with the messages 5 and 6, and a pool of the messages 7 and 8.
use acached.Prelude.{ℕ, ◌≡◌, refl, List, [], ◌∷◌, false, some, arith, length}
use acached.Queue.{Ptr, null}
use acached.Pool.Conserve.{idle}
use acached.Global.{acache_sga, kvdata_queues}
use acached.Global.Served.{Served, kvdata_index-Served}
use acached.Parse.Command.{gets}
use acached.Message.{Msg, kvdata}
use acached.Request.{Connection, World, post2kvdata_tsq, dispatch, post_keys}
use acached.Request.Order.{
  free_queue, with_pending, Taken, post2kvdata_tsq_busy, post2kvdata_tsq-Taken,
  post2kvdata_tsq_overtakes,
}
use acached.Request.Keys.{Posted, post_keys-Posted}
use acached.Request.Notify.{
  Handover, Runs, Reach, Step, Watched, Kind, request, at_work, refuse, put, Reach-Watched,
  request_lost,
}
use acached.Tests.Receive.{clear, waits, hi}

kvdata_index-Served_example : Served 2 70000 (1 ∷ 1 ∷ [])
unfolding kvdata_queues
kvdata_index-Served_example =
    kvdata_index-Served 2 70000 (1 ∷ 1 ∷ []) (omega arith) (omega arith) refl

abbrev pub sum : List ℕ → ℕ
sum key = length key

abbrev pub never : ℕ → List Ptr
never n = []

abbrev gets_line : List ℕ
gets_line = b'g' ∷ b'e' ∷ b't' ∷ b's' ∷ b' ' ∷ []

abbrev pub connection : ℕ → List Ptr → Connection
connection busy pending = record {
  receiver = record (waits clear 0) { cmd = record hi { ctype = gets } };
  c_sock_fd = 9;
  busy = busy;
  conc_pending = 0;
  req_count = 0;
  reply_count = 0;
  pending_cmd_q = free_queue 1234 pending;
}

abbrev command : Msg
command = record {
  type = kvdata;
  ctype = gets;
  a_c = 1;
  result = 0;
  errnum = 0;
  key = [];
  keylen = 0;
  hashval = 0;
  kv_dataptr = null;
  cmdptr = some (b'g' ∷ b'e' ∷ b't' ∷ b's' ∷ b' ' ∷ 0 ∷ []);
  flag = 0;
  exptime = 0;
  vallen = 0;
  errbuf = [];
}

abbrev pub world : ℕ → List Ptr → World
world busy pending = record {
  sga = acache_sga 2;
  messages = λ p. command;
  connections = λ p. connection busy pending;
  msg_pool = idle 301 302 (7 ∷ 8 ∷ []) (5 ∷ []);
  conn_pool = idle 303 304 [] (1 ∷ []);
  posted = λ i. [];
  closed = [];
}

post2kvdata_tsq_busy_example :
    post2kvdata_tsq sum never 1 5 (world 1 (6 ∷ []))
    ≡ some (tt, with_pending 1 1234 (6 ∷ 5 ∷ []) (world 1 (6 ∷ [])))
post2kvdata_tsq_busy_example =
    post2kvdata_tsq_busy sum never 1 5 1234 (6 ∷ []) (world 1 (6 ∷ [])) (omega arith) refl

post2kvdata_tsq-Taken_example :
    (w' : World) × (post2kvdata_tsq sum never 1 5 (world 0 (6 ∷ [])) ≡ dispatch sum never 1 6 w')
    × Taken sum never 1 1234 (5 ∷ []) (world 0 (6 ∷ [])) w'
post2kvdata_tsq-Taken_example =
    post2kvdata_tsq-Taken sum never 1 5 6 1234 (6 ∷ []) (5 ∷ []) (world 0 (6 ∷ [])) (omega arith)
      (omega arith) refl refl refl

post_keys-Posted_example :
    (w' : World) × (post_keys sum never 1 ((b'a' ∷ []) ∷ (b'b' ∷ b'c' ∷ []) ∷ []) (world 1 [])
      ≡ some (tt, w'))
    × Posted sum 1 ((b'a' ∷ []) ∷ (b'b' ∷ b'c' ∷ []) ∷ []) (7 ∷ 8 ∷ []) (world 1 []) w'
    × (w'.msg_pool ≡ idle 301 302 [] (5 ∷ 7 ∷ 8 ∷ []))
post_keys-Posted_example =
    post_keys-Posted sum never 1 (b'a' ∷ []) ((b'b' ∷ b'c' ∷ []) ∷ []) 7 (8 ∷ []) [] (5 ∷ []) 301
      302 (world 1 []) refl (omega arith, (omega arith, tt)) (omega arith, (omega arith, tt)) refl

at_work-Watched : Watched at_work
at_work-Watched = record {
  real = tt;
  queued = λ free. absurd (ground (arith, free));
  refused = λ p e. absurd (ground (arith, e));
}

abbrev queued : Handover
queued = record at_work { pending = 5 ∷ [] }

Reach-Watched_example : Watched queued
Reach-Watched_example =
    Reach-Watched
      (Reach.next
        (Reach.next Reach.here (refuse 5 refl refl) (λ e. absurd (ground (arith, e)))
          (λ e. absurd (ground (arith, e))))
        (put 5 refl (omega arith)) (λ e. absurd (ground (arith, e)))
        (λ e. absurd (ground (arith, e))))
      at_work-Watched

request_lost_example :
    (s : Handover) × Runs at_work s
    × (s.busy ≡ false)
    × (s.pending ≡ 5 ∷ [])
    × ((k : Kind) (t : Handover) → Step s k t → k ≡ request)
request_lost_example = request_lost 5

post2kvdata_tsq_overtakes_example :
    (w' : World) × (post2kvdata_tsq sum never 1 5 (world 0 (null ∷ 6 ∷ []))
      ≡ dispatch sum never 1 5 w')
    × Taken sum never 1 1234 (6 ∷ []) (world 0 (null ∷ 6 ∷ [])) w'
post2kvdata_tsq_overtakes_example =
    post2kvdata_tsq_overtakes sum never 1 5 1234 (6 ∷ []) (world 0 (null ∷ 6 ∷ [])) (omega arith)
      refl refl
