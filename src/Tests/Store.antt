-- ===== src/Tests/Store.antt =====
-- A set of the key "b" with the value "z" on an empty table, and the reply to a get of it.
use acached.Prelude.{ℕ, ◌≡◌, refl, List, [], ◌∷◌, false, none, some, replicate, arith}
use acached.Queue.{null}
use acached.Pool.Conserve.{idle}
use acached.Request.Order.{free_queue}
use acached.Message.{Msg, kvdata}
use acached.Parse.Command.{set}
use acached.Reply.Once.{room}
use acached.Reply.Queued.{Replies, crlf, decimal, decimal_loop, reply_header, q_reply}
use acached.Table.{Hashtable, ahashtable, log2, get_entry}
use acached.Table.Memory.{Entry}
use acached.Table.Chain.{has}
use acached.Table.Locks.{ahashtable-Represents}
use acached.Store.{Worker, store_entry, handle_set}
use acached.Store.Layout.{Queued, q_reply-store_entry}
use acached.Store.Handled.{Freed, handle_set-Freed}

abbrev pub set_b : Msg
set_b = record {
  type = kvdata;
  ctype = set;
  a_c = 1;
  result = 0;
  errnum = 0;
  key = b'b' ∷ 0 ∷ [];
  keylen = 1;
  hashval = 5;
  kv_dataptr = null;
  cmdptr = some (b'z' ∷ b'\r' ∷ b'\n' ∷ []);
  flag = 0;
  exptime = 0;
  vallen = 1;
  errbuf = [];
}

abbrev pub replies : Replies
replies = record {
  writer = record { iovec = [] ∷ [] ∷ [] ∷ []; windexlast = 0; writingflag = 0 };
  written = λ i. false;
  malloced = λ i. false;
  iov_index = 0;
  totalsize = 0;
}

abbrev pub line : List ℕ
line =
    b'V' ∷ b'A' ∷ b'L' ∷ b'U' ∷ b'E' ∷ b' ' ∷ b'b' ∷ b' ' ∷ b'0' ∷ b' ' ∷ b'1' ∷ b' ' ∷ b'1' ∷ crlf

q_reply-store_entry_example :
    (e : Entry) × (e' : Entry) × (r' : Replies) × (store_entry set_b ≡ some e)
    × (q_reply [] e (b'b' ∷ []) replies ≡ some (e', r'))
    × Queued line (b'z' ∷ []) replies r'
    × (e'.bytes ≡ b'b' ∷ b'z' ∷ b'\r' ∷ b'\n' ∷ replicate 8 0)
unfolding reply_header decimal decimal_loop
q_reply-store_entry_example =
    q_reply-store_entry [] set_b (b'z' ∷ b'\r' ∷ b'\n' ∷ []) (b'b' ∷ []) replies refl (omega arith)
      (omega arith) (omega arith)
      record {
        room = omega arith;
        indices = omega arith;
        small = omega arith;
        behind = omega arith;
        few = omega arith;
      }

abbrev pub worker : Worker
worker = record {
  table = ahashtable 4 2;
  heap = λ p. none;
  msg = set_b;
  msg_pool = idle 301 302 [] (5 ∷ []);
  replies = replies;
  busy = 1;
  reply_count = 0;
  refcount = 0;
  pending_cmd_q = free_queue 1234 (6 ∷ []);
  notified = 0;
  req_count = 0;
  conc_pending = 0;
  con_watch_sent = 0;
  aerrtype = 0;
  sent = [];
}

handle_set-Freed_example :
    (w' : Worker) × (t'' : Hashtable) × (handle_set 1 7 (room 100 ∷ []) 5 worker ≡ some w')
    × (get_entry 1 5 (b'b' ∷ []) 1 w'.table w'.heap ≡ some (some 7, t'', w'.heap))
    × Freed 100 1234 (6 ∷ []) worker w'
unfolding has log2
handle_set-Freed_example =
    handle_set-Freed 1 7 5 100 1234 301 302 [] (6 ∷ []) [] (5 ∷ []) worker
      (b'z' ∷ b'\r' ∷ b'\n' ∷ []) (λ b. []) refl refl refl (omega arith) refl (omega arith)
      (omega arith) (omega arith) (ahashtable-Represents 4 2 _ (omega arith) (omega arith))
      (omega arith) (omega arith) (λ b. refl) tt
