-- ===== src/Tests/Gets.antt =====
-- The only reply of a gets command, whose record is found, and the counts of a command with a key.
use acached.Prelude.{ℕ, ◌≡◌, ◌≢◌, refl, List, [], ◌∷◌, true, false, some, arith}
use acached.Queue.{null}
use acached.Parse.Command.{gets}
use acached.Parse.Header.{c_string}
use acached.Reply.Once.{room}
use acached.Reply.Queued.{reply_header, decimal, decimal_loop}
use acached.Table.{bucket}
use acached.Table.Memory.{KvData, kv_data, same_prefix}
use acached.Table.Chain.{find}
use acached.Table.Refinement.{get_entry-find}
use acached.Store.{Worker}
use acached.Store.Gets.{handle_gets}
use acached.Store.Gets.Single.{Sent, handle_gets-Sent}
use acached.Store.Ending.{
  Tally, alone, overlapping, count, reset, post, reply, add, none_pending, last, end, Runs, Orderly,
  first, then_next, Quiet, Answered, started, Runs-Answered,
}
use acached.Store.Ending.Once.{Orderly-ended, end_repeated}
use acached.Tests.Sample.{entry_b, memory, table, view, represents}
use acached.Tests.Store.{set_b, worker}
use acached.Tests.Table.{found_none}

abbrev gets_worker : Worker
gets_worker = record worker {
  table = table;
  heap = memory;
  msg = record set_b { ctype = gets };
  req_count = 1;
}

abbrev record_b : KvData
record_b = kv_data entry_b null 5

abbrev asked_b : List ℕ
asked_b = b'b' ∷ []

abbrev value_b : List ℕ
value_b = b'y' ∷ []

handle_gets-Sent_example :
    (w' : Worker) × (handle_gets 3 [] ((room 100 ∷ []) ∷ []) 5 gets_worker ≡ some w')
    × Sent asked_b value_b [] 100 0 1234 (6 ∷ []) gets_worker w'
unfolding c_string reply_header decimal decimal_loop bucket same_prefix find
handle_gets-Sent_example =
    let (t, hit, _) =
      get_entry-find table memory view represents 3 5 (b'b' ∷ 0 ∷ []) 1 (omega arith)
        (found_none false, (found_none true, tt)) in
    handle_gets-Sent value_b asked_b 3 100 1234 301 302 0 0 [] [] [] 5 6 (6 ∷ []) [] (5 ∷ []) t
      memory record_b asked_b [] gets_worker refl refl (omega arith) refl (omega arith) refl hit
      refl refl record { keylen = refl; vallen = refl; bytes = refl } (omega arith)
      record {
        room = omega arith;
        indices = omega arith;
        small = omega arith;
        behind = omega arith;
        few = omega arith;
      }
      refl refl (omega arith) (omega arith)

end_repeated_example : (s : Tally) × Runs 2 (started 3) s × Quiet s × (s.ended ≡ 2)
end_repeated_example = end_repeated 1

abbrev finished : Tally
finished = record (started 0) { ended = 1; conc_pending = false }

not_overlapping : alone ≢ overlapping
not_overlapping e = absurd (ground (arith, e))

in_turn : Orderly 2 (started 1) finished
in_turn =
    let posted =
      then_next
        (then_next (then_next first (count 0 refl refl) not_overlapping) (reset refl refl)
          not_overlapping)
        (post refl) not_overlapping in
    let added =
      then_next (then_next posted (reply 0 refl (omega arith)) not_overlapping) (add 0 refl refl)
        not_overlapping in
    then_next
      (then_next (then_next added (none_pending 0 refl refl) not_overlapping) (last 0 refl refl)
        not_overlapping)
      (end 0 refl) not_overlapping

Orderly-ended_example : finished.ended ≡ 1
Orderly-ended_example = Orderly-ended 2 0 in_turn record {
  uncounted = refl;
  posting = refl;
  posted = refl;
  replied = refl;
  added = refl;
  testing = refl;
  ending = refl;
}

Runs-Answered_example : Answered (end_repeated 1).0
Runs-Answered_example = Runs-Answered 2 2 (end_repeated 1).1
