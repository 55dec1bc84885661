-- ===== src/Store/Ending/Once.antt =====
-- How often `END` is queued for a gets command.
use acached.Prelude.{
  ℕ, zero, suc, ◌+◌, ◌≤◌, ◌<◌, ◌≡◌, ◌≢◌, refl, subst, false, ◌⊎◌, inl, inr, arith,
}
use acached.Store.Ending.{
  between, Tally, Kind, overlapping, Step, count, reset, go_on, post, reply, add, add_overlapping,
  wait_more, none_pending, last, not_last, end, Runs, here, next, Orderly, first, then_next,
  started, Counted, Step-Counted, Step-After, started-Before, Quiet, Runs-Answered,
}

-- One thread tests at a time, and none behind the last.
abbrev Single : Tally → Type 0
Single s =
    ((s.ending + s.ended ≡ 0) × (s.added + s.testing ≤ 1))
    ⊎ ((s.ending + s.ended ≡ 1) × (s.added + s.testing ≡ 0))

add-Single :
    {keys : ℕ} {s : Tally} (n : ℕ)
    → s.replied ≡ suc n
    → s.added + s.testing + s.ending ≡ 0
    → Counted keys s
    → Single (record s { replied = n; added = suc s.added; reply_count = suc s.reply_count })
add-Single {keys} {s} n r z (inl b) = inl (b.not_won, omega (arith, z))
add-Single {keys} {s} n r z (inr a) = absurd (omega (arith, r, a.done))

Step-Single :
    {threads keys : ℕ} {s t : Tally} {k : Kind}
    → Step threads s k t
    → k ≢ overlapping
    → Counted keys s
    → Single s
    → Single t
Step-Single {s = s} (count n u p) ok c h = h
Step-Single {s = s} (reset p u) ok c h = h
Step-Single {s = s} (go_on n p u) ok c h = h
Step-Single {s = s} (post p) ok c h = h
Step-Single {s = s} (reply n p free) ok c h = h
Step-Single {s = s} (add n r z) ok c h = add-Single n r z c
Step-Single {s = s} (add_overlapping n r z) ok c h = absurd (ok refl)
Step-Single {s = s} (wait_more n e p) ok c (inl (w, o)) = inl (w, omega (arith, o, e))
Step-Single {s = s} (wait_more n e p) ok c (inr (w, o)) = absurd (omega (arith, o, e))
Step-Single {s = s} (none_pending n e p) ok c (inl (w, o)) = inl (w, omega (arith, o, e))
Step-Single {s = s} (none_pending n e p) ok c (inr (w, o)) = absurd (omega (arith, o, e))
Step-Single {s = s} (last n e p) ok c (inl (w, o)) = inr (omega (arith, w), omega (arith, o, e))
Step-Single {s = s} (last n e p) ok c (inr (w, o)) = absurd (omega (arith, o, e))
Step-Single {s = s} (not_last n e p) ok c (inl (w, o)) = inl (w, omega (arith, o, e))
Step-Single {s = s} (not_last n e p) ok c (inr (w, o)) = absurd (omega (arith, o, e))
Step-Single {s = s} (end n e) ok c (inl (w, o)) = absurd (omega (arith, w, e))
Step-Single {s = s} (end n e) ok c (inr (w, o)) = inr (omega (arith, w, e), o)

Orderly-Runs : {threads : ℕ} {s t : Tally} → Orderly threads s t → Runs threads s t
Orderly-Runs first = here
Orderly-Runs (then_next r st ok) = next (Orderly-Runs r) st

Orderly-Single :
    {threads keys : ℕ} {s t : Tally}
    → Orderly threads s t
    → Counted keys s
    → Single s
    → Counted keys t × Single t
Orderly-Single first c h = (c, h)
Orderly-Single (then_next r st ok) c h =
    let (c', h') = Orderly-Single r c h in
    (elim c' [ inl b ↦ Step-Counted st b | inr a ↦ inr (Step-After st a) ], Step-Single st ok c' h')

ended_one : {s : Tally} → Single s → Quiet s → 0 < s.ended → s.ended ≡ 1
ended_one (inl (w, o)) q some_end = absurd (omega (arith, w, some_end))
ended_one (inr (w, o)) q some_end = omega (arith, w, q.ending)

-- For a gets command with at least one key, when no thread counts its reply while another is
-- between its own count and the end of its test, as with a single store thread: `END` was queued
-- exactly once when no thread has anything left to do for the command.
pub Orderly-ended :
    (threads n : ℕ) {s : Tally} → Orderly threads (started (suc n)) s → Quiet s → s.ended ≡ 1
Orderly-ended threads n r q =
    let (c, h) = Orderly-Single r (inl (started-Before n)) (inl (omega arith, omega arith)) in
    ended_one h q ((Runs-Answered threads n (Orderly-Runs r)).some_end q)

-- All keys are posted; the numbers of the threads in each place.
abbrev tally : ℕ → ℕ → ℕ → ℕ → ℕ → ℕ → ℕ → Tally
tally posted replied added testing ended req_count reply_count = record {
  uncounted = 0;
  posting = between;
  posted = posted;
  replied = replied;
  added = added;
  testing = testing;
  ending = 0;
  ended = ended;
  req_count = req_count;
  reply_count = reply_count;
  conc_pending = false;
}

abbrev posting_on : ℕ → ℕ → Tally
posting_on uncounted n = record (started 0) { uncounted = uncounted; posted = n; req_count = n }

module _ (n : ℕ) where
  all_posted :
      (i j : ℕ)
      → i + j ≡ suc n
      → Runs 2 (started (suc (suc n))) (posting_on (suc i) j)
      → Runs 2 (started (suc (suc n))) (tally (suc (suc n)) 0 0 0 0 (suc (suc n)) 0)
  all_posted zero j e r =
      let same : j ≡ suc n = omega (arith, e) in
      subst (λ m. Runs 2 (started (suc (suc n))) (tally (suc m) 0 0 0 0 (suc m) 0)) same
        (next (next (next r (count zero refl refl)) (reset refl refl)) (post refl))
  all_posted (suc i) j e r =
      all_posted i (suc j) (omega (arith, e))
        (next (next (next r (count (suc i) refl refl)) (go_on i refl refl)) (post refl))

  -- One store thread handles all messages but two.
  some_handled :
      (i j : ℕ)
      → i + j ≡ n
      → Runs 2 (started (suc (suc n))) (tally (suc (suc i)) 0 0 0 0 (suc (suc n)) j)
      → Runs 2 (started (suc (suc n))) (tally 2 0 0 0 0 (suc (suc n)) n)
  some_handled zero j e r =
      let same : j ≡ n = omega (arith, e) in
      subst (λ m. Runs 2 (started (suc (suc n))) (tally 2 0 0 0 0 (suc (suc n)) m)) same r
  some_handled (suc i) j e r =
      let replied = next r (reply (suc (suc i)) refl (omega arith)) in
      let testing = next (next replied (add 0 refl refl)) (none_pending 0 refl refl) in
      some_handled i (suc j) (omega (arith, e))
        (next testing (not_last 0 refl (λ same. absurd (omega (arith, e, same)))))

  both_ended :
      Runs 2 (started (suc (suc n))) (tally 2 0 0 0 0 (suc (suc n)) n)
      → Runs 2 (started (suc (suc n))) (tally 0 0 0 0 2 0 0)
  both_ended r =
      let replied = next (next r (reply 1 refl (omega arith))) (reply 0 refl (omega arith)) in
      let added = next (next replied (add 1 refl refl)) (add_overlapping 0 refl (omega arith)) in
      let testing = next (next added (none_pending 1 refl refl)) (none_pending 0 refl refl) in
      let once = next (next testing (last 1 refl refl)) (end 0 refl) in
      next (next once (last 0 refl refl)) (end 0 refl)

-- For a gets command with two keys or more there is a run of two store threads at whose end `END`
-- was queued twice: both count their replies before either tests, and behind the first success,
-- which resets both counters, the other thread compares 0 with 0.
pub end_repeated :
    (n : ℕ) → (s : Tally) × Runs 2 (started (suc (suc n))) s × Quiet s × (s.ended ≡ 2)
end_repeated n =
    let posted = all_posted n (suc n) 0 (omega arith) here in
    let handled = some_handled n n 0 (omega arith) posted in
    (
      tally 0 0 0 0 2 0 0,
      both_ended n handled,
      record {
        uncounted = refl;
        posting = refl;
        posted = refl;
        replied = refl;
        added = refl;
        testing = refl;
        ending = refl;
      },
      refl,
    )
