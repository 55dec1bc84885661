-- ===== src/Store/Ending.antt =====
-- threadKVdata.cpp and aConnReq.cpp: the count of requests and replies by which the store threads
-- find the last reply of a gets command, and queue `END` behind it. A step is one action of a
-- thread; the swap of `replyCount`, with the reads of `reqCount` before and behind it, is one.
pub mod Once
use acached.Prelude.{
  ℕ, zero, suc, ◌+◌, ◌≤◌, ◌<◌, ◌≡◌, ◌≢◌, refl, ap, Bool, true, false, ◌⊎◌, inl, inr, arith,
}

-- What the communication thread does with the key at hand in the loop of `Post2KVdataGets`.
pub data Posting : Type 0 where
  between counted allowed : Posting

-- One gets command. `uncounted` is the number of keys that the loop has before it. The messages of
-- the others are with the communication thread (`posting`), in the queues of the store threads
-- (`posted`), or with a thread that has queued its reply (`replied`), has increased `replyCount`
-- (`added`), has found that nothing is pending (`testing`), or is the last by its test (`ending`).
pub record Tally : Type 0 where
  pub uncounted : ℕ
  pub posting : Posting
  pub posted : ℕ
  pub replied : ℕ
  pub added : ℕ
  pub testing : ℕ
  pub ending : ℕ
  -- the number of `END` that were queued
  pub ended : ℕ
  pub req_count : ℕ
  pub reply_count : ℕ
  pub conc_pending : Bool

pub data Kind : Type 0 where
  alone overlapping : Kind

-- `overlapping` is the increment of `replyCount` while another thread is between its own and the
-- end of its test. The later reset of `replyCount`, which the swap has set to 0, is left out, and so
-- is the connection's next command. `threads` is the number of store threads, each of which has one
-- message at a time. `acacheSGA` gives each of its queues 2 / `numCores` of them, so at most two
-- serve the queues into which messages are put.
pub data Step (threads : ℕ) (s : Tally) : Kind → Tally → Type 0 where
  -- `this->reqCount++`
  count :
      (n : ℕ)
      → s.uncounted ≡ suc n
      → s.posting ≡ between
      → Step threads s alone
          (record s { uncounted = n; posting = counted; req_count = suc s.req_count })
  -- `concPendingReset` behind the last key
  reset :
      s.posting ≡ counted
      → s.uncounted ≡ 0
      → Step threads s alone (record s { posting = allowed; conc_pending = false })
  go_on :
      (n : ℕ)
      → s.posting ≡ counted
      → s.uncounted ≡ suc n
      → Step threads s alone (record s { posting = allowed })
  -- `aTSQputMsg`
  post :
      s.posting ≡ allowed
      → Step threads s alone (record s { posting = between; posted = suc s.posted })
  -- `aTSQgetMsg` to `Revoke`
  reply :
      (n : ℕ)
      → s.posted ≡ suc n
      → s.replied + s.added + s.testing + s.ending < threads
      → Step threads s alone (record s { posted = n; replied = suc s.replied })
  -- `atomicIncrAddGet(&replyCount)`
  add :
      (n : ℕ)
      → s.replied ≡ suc n
      → s.added + s.testing + s.ending ≡ 0
      → Step threads s alone
          (record s { replied = n; added = suc s.added; reply_count = suc s.reply_count })
  add_overlapping :
      (n : ℕ)
      → s.replied ≡ suc n
      → 0 < s.added + s.testing + s.ending
      → Step threads s overlapping
          (record s { replied = n; added = suc s.added; reply_count = suc s.reply_count })
  -- `IsconcPending`
  wait_more :
      (n : ℕ)
      → s.added ≡ suc n
      → s.conc_pending ≡ true
      → Step threads s alone (record s { added = n })
  none_pending :
      (n : ℕ)
      → s.added ≡ suc n
      → s.conc_pending ≡ false
      → Step threads s alone (record s { added = n; testing = suc s.testing })
  -- `__sync_val_compare_and_swap(&replyCount, reqCount, 0) == reqCount`
  last :
      (n : ℕ)
      → s.testing ≡ suc n
      → s.reply_count ≡ s.req_count
      → Step threads s alone (record s { testing = n; ending = suc s.ending; reply_count = 0 })
  not_last :
      (n : ℕ)
      → s.testing ≡ suc n
      → s.reply_count ≢ s.req_count
      → Step threads s alone (record s { testing = n })
  -- `reqCount = 0`, and `END` is queued
  end :
      (n : ℕ)
      → s.ending ≡ suc n
      → Step threads s alone (record s { ending = n; ended = suc s.ended; req_count = 0 })

-- All runs.
pub data Runs (threads : ℕ) (s : Tally) : Tally → Type 0 where
  here : Runs threads s s
  next : {t u : Tally} {k : Kind} → Runs threads s t → Step threads t k u → Runs threads s u

-- Runs in which the threads test one after another.
pub data Orderly (threads : ℕ) (s : Tally) : Tally → Type 0 where
  first : Orderly threads s s
  then_next :
      {t u : Tally} {k : Kind}
      → Orderly threads s t
      → Step threads t k u
      → k ≢ overlapping
      → Orderly threads s u

-- A command with keys, as the loop begins.
abbrev pub started : ℕ → Tally
started keys = record {
  uncounted = keys;
  posting = between;
  posted = 0;
  replied = 0;
  added = 0;
  testing = 0;
  ending = 0;
  ended = 0;
  req_count = 0;
  reply_count = 0;
  conc_pending = true;
}

-- Whether the message of a counted key is with the communication thread, and whether it is still to
-- reset the pending state behind the last.
abbrev pub held : Posting → ℕ
held between = 0
held counted = 1
held allowed = 1

abbrev pub awaited : Posting → ℕ
awaited between = 0
awaited counted = 1
awaited allowed = 0

awaited-le-held : (p : Posting) → awaited p ≤ held p
awaited-le-held between = omega arith
awaited-le-held counted = omega arith
awaited-le-held allowed = omega arith

-- Until a thread's test has succeeded, `replyCount` has the number of replies, and the last of them
-- has a thread that is still to test.
pub record Before (keys : ℕ) (s : Tally) : Type 0 where
  pub not_won : s.ending + s.ended ≡ 0
  pub all : s.uncounted + held s.posting + s.posted + s.replied + s.reply_count ≡ keys
  pub requests : s.req_count + s.uncounted ≡ keys
  pub awaits : s.conc_pending ≡ true → 0 < s.uncounted + awaited s.posting
  pub allows : s.conc_pending ≡ false → s.uncounted + awaited s.posting ≡ 0
  pub tests : 0 < s.testing → s.conc_pending ≡ false
  pub watched : s.reply_count ≡ keys → 0 < s.added + s.testing

-- Behind that, every reply is queued.
pub record After (s : Tally) : Type 0 where
  pub won : 0 < s.ending + s.ended
  pub done : s.uncounted + held s.posting + s.posted + s.replied ≡ 0

abbrev pub Counted : ℕ → Tally → Type 0
Counted keys s = Before keys s ⊎ After s

pub Step-After : {threads : ℕ} {s t : Tally} {k : Kind} → Step threads s k t → After s → After t
Step-After {s} (count n u p) a = absurd (omega (arith, u, a.done))
Step-After {s} (reset p u) a = absurd (ground (arith, p, a.done))
Step-After {s} (go_on n p u) a = absurd (omega (arith, u, a.done))
Step-After {s} (post p) a = absurd (ground (arith, p, a.done))
Step-After {s} (reply n p free) a = absurd (omega (arith, p, a.done))
Step-After {s} (add n r z) a = absurd (omega (arith, r, a.done))
Step-After {s} (add_overlapping n r z) a = absurd (omega (arith, r, a.done))
Step-After {s} (wait_more n e p) a = record { won = a.won; done = a.done }
Step-After {s} (none_pending n e p) a = record { won = a.won; done = a.done }
Step-After {s} (last n e p) a = record { won = omega arith; done = a.done }
Step-After {s} (not_last n e p) a = record { won = a.won; done = a.done }
Step-After {s} (end n e) a = record { won = omega arith; done = a.done }

added_one :
    {keys : ℕ} {s : Tally} (n : ℕ)
    → s.replied ≡ suc n
    → Before keys s
    → Before keys (record s { replied = n; added = suc s.added; reply_count = suc s.reply_count })
added_one {keys} {s} n r b = record {
  not_won = b.not_won;
  all = omega (arith, b.all, r);
  requests = b.requests;
  awaits = b.awaits;
  allows = b.allows;
  tests = b.tests;
  watched = λ e. omega arith;
}

-- The thread whose test succeeds is behind all replies.
last-After :
    {keys : ℕ} {s : Tally} (n : ℕ)
    → s.testing ≡ suc n
    → s.reply_count ≡ s.req_count
    → Before keys s
    → After (record s { testing = n; ending = suc s.ending; reply_count = 0 })
last-After {keys} {s} n e same b =
    let all_counted = b.allows (b.tests (omega (arith, e))) in
    record { won = omega arith; done = omega (arith, same, b.all, b.requests, all_counted) }

pub Step-Counted :
    {keys : ℕ} {threads : ℕ} {s t : Tally} {k : Kind}
    → Step threads s k t
    → Before keys s
    → Counted keys t
Step-Counted {keys} {s} (count n u p) b =
    let h = ap held p in
    inl record {
      not_won = b.not_won;
      all = omega (arith, b.all, u, h);
      requests = omega (arith, b.requests, u);
      awaits = λ w. omega arith;
      allows = λ w. absurd (omega (arith, b.allows w, u));
      tests = b.tests;
      watched = λ w. absurd (omega (arith, w, b.all, u));
    }
Step-Counted {keys} {s} (reset p u) b =
    let h = ap held p in
    inl record {
      not_won = b.not_won;
      all = omega (arith, b.all, h);
      requests = b.requests;
      awaits = λ w. absurd (ground (arith, w));
      allows = λ w. omega (arith, u);
      tests = λ w. refl;
      watched = b.watched;
    }
Step-Counted {keys} {s} (go_on n p u) b =
    let h = ap held p in
    inl record {
      not_won = b.not_won;
      all = omega (arith, b.all, h);
      requests = b.requests;
      awaits = λ w. omega (arith, u);
      allows = λ w. absurd (omega (arith, b.allows w, u));
      tests = b.tests;
      watched = b.watched;
    }
Step-Counted {keys} {s} (post p) b =
    let h = ap held p in
    let a = ap awaited p in
    inl record {
      not_won = b.not_won;
      all = omega (arith, b.all, h);
      requests = b.requests;
      awaits = λ w. omega (arith, b.awaits w, a);
      allows = λ w. omega (arith, b.allows w, a);
      tests = b.tests;
      watched = b.watched;
    }
Step-Counted {keys} {s} (reply n p free) b = inl record {
  not_won = b.not_won;
  all = omega (arith, b.all, p);
  requests = b.requests;
  awaits = b.awaits;
  allows = b.allows;
  tests = b.tests;
  watched = b.watched;
}
Step-Counted {keys} {s} (add n r z) b = inl (added_one n r b)
Step-Counted {keys} {s} (add_overlapping n r z) b = inl (added_one n r b)
Step-Counted {keys} {s} (wait_more n e p) b =
    let more = b.awaits p in
    let behind = awaited-le-held s.posting in
    inl record {
      not_won = b.not_won;
      all = b.all;
      requests = b.requests;
      awaits = b.awaits;
      allows = b.allows;
      tests = b.tests;
      watched = λ w. absurd (omega (arith, w, more, behind, b.all));
    }
Step-Counted {keys} {s} (none_pending n e p) b = inl record {
  not_won = b.not_won;
  all = b.all;
  requests = b.requests;
  awaits = b.awaits;
  allows = b.allows;
  tests = λ t. p;
  watched = λ w. omega arith;
}
Step-Counted {keys} {s} (last n e p) b = inr (last-After n e p b)
Step-Counted {keys} {s} (not_last n e p) b =
    let all_counted = b.allows (b.tests (omega (arith, e))) in
    inl record {
      not_won = b.not_won;
      all = b.all;
      requests = b.requests;
      awaits = b.awaits;
      allows = b.allows;
      tests = λ t. b.tests (omega (arith, e));
      watched = λ w. absurd (p (omega (arith, w, b.requests, all_counted)));
    }
Step-Counted {keys} {s} (end n e) b = absurd (omega (arith, e, b.not_won))

-- From the start of a command with keys, whatever the order of the actions.
Runs-Counted : {threads keys : ℕ} {s t : Tally} → Runs threads s t → Counted keys s → Counted keys t
Runs-Counted here c = c
Runs-Counted (next r st) c = elim (Runs-Counted r c) [
  | inl b ↦ Step-Counted st b
  | inr a ↦ inr (Step-After st a)
]

pub started-Before : (n : ℕ) → Before (suc n) (started (suc n))
started-Before n = record {
  not_won = refl;
  all = omega arith;
  requests = omega arith;
  awaits = λ e. omega arith;
  allows = λ e. absurd (ground (arith, e));
  tests = λ w. absurd (omega (arith, w));
  watched = λ w. absurd (omega (arith, w));
}

-- No thread has anything left to do for the command.
pub record Quiet (s : Tally) : Type 0 where
  pub uncounted : s.uncounted ≡ 0
  pub posting : s.posting ≡ between
  pub posted : s.posted ≡ 0
  pub replied : s.replied ≡ 0
  pub added : s.added ≡ 0
  pub testing : s.testing ≡ 0
  pub ending : s.ending ≡ 0

pub record Answered (s : Tally) : Type 0 where
  pub behind :
      0 < s.ending + s.ended
      → (s.uncounted ≡ 0) × (s.posting ≡ between) × (s.posted ≡ 0) × (s.replied ≡ 0)
  pub some_end : Quiet s → 0 < s.ended

not_held : (p : Posting) → held p ≡ 0 → p ≡ between
not_held between e = refl
not_held counted e = absurd (omega (arith, e))
not_held allowed e = absurd (omega (arith, e))

Counted-Answered : {n : ℕ} {s : Tally} → Counted (suc n) s → Answered s
Counted-Answered {n} {s} (inl b) = record {
  behind = λ w. absurd (omega (arith, w, b.not_won));
  some_end = λ q.
      let h = ap held q.posting in
      let every : s.reply_count ≡ suc n =
        omega (arith, b.all, h, q.uncounted, q.posted, q.replied) in
      absurd (omega (arith, b.watched every, q.added, q.testing));
}
Counted-Answered {n} {s} (inr a) = record {
  behind = λ w. (
    omega (arith, a.done),
    not_held s.posting (omega (arith, a.done)),
    omega (arith, a.done),
    omega (arith, a.done),
  );
  some_end = λ q. omega (arith, a.won, q.ending);
}

-- For a gets command with at least one key and any number of store threads, however they
-- interleave: `END` is queued, or a thread is about to queue it, only when the replies to all keys
-- are queued; and when no thread has anything left to do for the command, at least one `END` was.
pub Runs-Answered : (threads n : ℕ) {s : Tally} → Runs threads (started (suc n)) s → Answered s
Runs-Answered threads n r = Counted-Answered {n = n} (Runs-Counted r (inl (started-Before n)))
