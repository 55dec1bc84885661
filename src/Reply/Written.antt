-- ===== src/Reply/Written.antt =====
-- Where the next write goes on.
use mathlib.Core.List.{append_assoc}
use acached.Prelude.{
  ℕ, zero, suc, ◌+◌, ◌-◌, ◌%◌, ◌^◌, ◌≤◌, ◌<◌, ◌≡◌, ◌≢◌, refl, sym, ap, ◌∙◌, subst, List, [], ◌∷◌,
  ◌++◌, true, false, some, ◌==◌, leb, ltb, length, get_or, set, take, drop, arith, Bool-cases, inl,
  inr, take-append_length, drop-append_length, length-append,
}
use acached.Reply.{
  stream, size, Iovec, Totals, total_loop, count_entry, settle, Checked, check_iov_total_written,
}

drop_past {ℓ} : {A : Type ℓ} (xs ys : List A) (k : ℕ) → drop (length xs + k) (xs ++ ys) ≡ drop k ys
drop_past [] ys k = let e : 0 + k ≡ k = omega arith in ap (λ n. drop n ys) e
drop_past (x ∷ xs) ys k =
    let e : suc (length xs) + k ≡ suc (length xs + k) = omega arith in
    ap (λ n. drop n ((x ∷ xs) ++ ys)) e ∙ drop_past xs ys k

drop_within : (k : ℕ) (xs ys : List ℕ) → k ≤ length xs → drop k (xs ++ ys) ≡ drop k xs ++ ys
drop_within zero xs ys h = refl
drop_within (suc k) [] ys h = absurd (omega arith)
drop_within (suc k) (x ∷ xs) ys h = drop_within k xs ys (omega arith)

pub length-stream : (es : Iovec) → length (stream es) ≡ size es
length-stream [] = refl
length-stream (e ∷ es) = omega (arith, length-append e (stream es), length-stream es)

pub stream-append : (xs ys : Iovec) → stream (xs ++ ys) ≡ stream xs ++ stream ys
stream-append [] ys = refl
stream-append (x ∷ xs) ys =
    ap (◌++◌ x) (stream-append xs ys) ∙ sym (append_assoc x (stream xs) (stream ys))

count_entry_later :
    (writeret i total : ℕ) (s : Totals)
    → (s.tmptotal == 0) ≡ false
    → count_entry writeret i total s ≡ record s { total = total }
count_entry_later writeret i total s old = elim (Bool-cases (leb writeret total)) [
  | inl y ↦ rw (y, old) refl
  | inr n ↦ rw n refl
]

-- Once an entry is found the loop keeps it.
pub total_loop-kept :
    (writeret i : ℕ) (s : Totals) (es : Iovec)
    → s.tmptotal ≢ 0
    → ((total_loop writeret i s es).tmptotal ≡ s.tmptotal)
      × ((total_loop writeret i s es).found ≡ s.found)
unfolding total_loop
total_loop-kept writeret i s [] h = (refl, refl)
total_loop-kept writeret i s (e ∷ es) h =
    let old : (s.tmptotal == 0) ≡ false = ground arith in
    let now = (s.total + length e) % 2 ^ 32 in
    let (a, b) = total_loop-kept writeret (suc i) (record s { total = now }) es h in
    subst
      (λ r.
        ((total_loop writeret (suc i) r es).tmptotal ≡ s.tmptotal)
        × ((total_loop writeret (suc i) r es).found ≡ s.found))
      (sym (count_entry_later writeret i now s old)) (a, b)

-- The entry in which the bytes that were written end.
pub record Ends (writeret total i : ℕ) (es : Iovec) (s : Totals) : Type 0 where
  pub before : Iovec
  pub entry : List ℕ
  pub after : Iovec
  pub parts : es ≡ before ++ entry ∷ after
  pub found : s.found ≡ i + length before
  pub tmptotal : s.tmptotal ≡ total + size before + length entry
  pub past : total + size before < writeret
  pub reached : writeret ≤ total + size before + length entry

pub total_loop-Ends :
    (writeret i total found : ℕ) (es : Iovec)
    → total < writeret
    → writeret ≤ total + size es
    → total + size es < 2 ^ 32
    → Ends writeret total i es
        (total_loop writeret i (record { total = total; tmptotal = 0; found = found }) es)
unfolding total_loop
total_loop-Ends writeret i total found [] lt le hi = absurd (omega arith)
total_loop-Ends writeret i total found (e ∷ es) lt le hi =
    let now : (total + length e) % 2 ^ 32 ≡ total + length e = omega arith in
    elim (Bool-cases (leb writeret (total + length e))) [
      | inl y ↦
          let ge : writeret ≤ total + length e = ground arith in
          let (a, b) =
            total_loop-kept writeret (suc i)
              record { total = total + length e; tmptotal = total + length e; found = i } es
              (omega arith) in
          rw (now, y)
            record {
              before = [];
              entry = e;
              after = es;
              parts = refl;
              found = b ∙ omega arith;
              tmptotal = a ∙ omega arith;
              past = omega arith;
              reached = ground arith;
            }
      | inr n ↦
          let rest =
            total_loop-Ends writeret (suc i) (total + length e) found es (ground arith)
              (omega arith) (omega arith) in
          rw (now, n)
            record {
              before = e ∷ rest.before;
              entry = rest.entry;
              after = rest.after;
              parts = ap (◌∷◌ e) rest.parts;
              found = rest.found ∙ omega arith;
              tmptotal = rest.tmptotal ∙ omega arith;
              past = omega (arith, rest.past);
              reached = omega (arith, rest.reached);
            }
    ]

set_at : (xs : Iovec) (e v : List ℕ) (ys : Iovec) → set (xs ++ e ∷ ys) (length xs) v ≡ xs ++ v ∷ ys
set_at [] e v ys = refl
set_at (x ∷ xs) e v ys = ap (◌∷◌ x) (set_at xs e v ys)

get_at : (xs : Iovec) (e : List ℕ) (ys : Iovec) → get_or (xs ++ e ∷ ys) (length xs) [] ≡ e
get_at [] e ys = refl
get_at (x ∷ xs) e ys = get_at xs e ys

-- The stream without its first `writeret` bytes, which end in the entry `e`.
stream_rest :
    (before after : Iovec) (e : List ℕ) (writeret seek : ℕ)
    → size before + seek ≡ writeret
    → seek ≤ length e
    → drop writeret (stream (before ++ e ∷ after)) ≡ drop seek e ++ stream after
stream_rest before after e writeret seek p le =
    let q : length (stream before) + seek ≡ writeret = omega (arith, length-stream before) in
    subst (λ n. drop n (stream (before ++ e ∷ after)) ≡ drop seek e ++ stream after) q
      (ap (drop (length (stream before) + seek)) (stream-append before (e ∷ after))
        ∙ drop_past (stream before) (e ++ stream after) seek
        ∙ drop_within seek e (stream after) le)

drop_all : (e rest : List ℕ) → drop (length e) e ++ rest ≡ rest
drop_all [] rest = refl
drop_all (x ∷ e) rest = drop_all e rest

-- Where the next write goes on: from the entry `iov_end` of the table that the call leaves.
pub record Continues (sent entries tail : Iovec) (writeret : ℕ) (c : Checked) : Type 0 where
  pub next : ℕ
  pub iov_end : c.iov_end ≡ some next
  pub after_start : length sent ≤ next
  pub rest : stream (drop next c.iovec) ≡ drop writeret (stream (entries ++ tail))
  pub within : next ≤ length c.iovec

settle-Continues :
    (sent before after tail : Iovec) (e : List ℕ) (writeret total : ℕ)
    → size before < writeret
    → writeret ≤ size before + length e
    → Continues sent (before ++ e ∷ after) tail writeret (
        settle
          (sent ++ ((before ++ e ∷ after) ++ tail))
          (length sent)
          writeret
          total
          (size before + length e)
          (length before))
unfolding settle
settle-Continues sent before after tail e writeret total lt le =
    let past = sent ++ before in
    let later = after ++ tail in
    let shape : sent ++ ((before ++ e ∷ after) ++ tail) ≡ past ++ e ∷ later =
      ap (◌++◌ sent) (append_assoc before (e ∷ after) tail)
      ∙ sym (append_assoc sent before (e ∷ later)) in
    let whole : (before ++ e ∷ after) ++ tail ≡ before ++ e ∷ later =
      append_assoc before (e ∷ after) tail in
    let index : length sent + length before ≡ length past = sym (length-append sent before) in
    let behind : length sent + suc (length before) ≡ length past + 1 = omega (arith, index) in
    let seek = writeret - (size before + length e - length e) in
    elim (Bool-cases (size before + length e == writeret)) [
      | inl eq ↦
          rw (shape, index, behind, eq)
            record {
              next = length past + 1;
              iov_end = refl;
              after_start = omega (arith, index);
              rest =
                  ap stream (drop_past past (e ∷ later) 1)
                  ∙ sym (drop_all e (stream later))
                  ∙ sym
                      (stream_rest before later e writeret (length e) (ground arith) (omega arith))
                  ∙ ap (λ es. drop writeret (stream es)) (sym whole);
              within = omega (arith, length-append past (e ∷ later));
            }
      | inr ne ↦
          let more : ltb writeret (size before + length e) ≡ true = ground arith in
          rw (shape, index, ne, more, get_at past e later, set_at past e (drop seek e) later)
            record {
              next = length past;
              iov_end = refl;
              after_start = omega (arith, index);
              rest =
                  ap stream (drop-append_length past (drop seek e ∷ later))
                  ∙ sym (stream_rest before later e writeret seek (ground arith) (omega arith))
                  ∙ ap (λ es. drop writeret (stream es)) (sym whole);
              within = omega (arith, length-append past (drop seek e ∷ later));
            }
    ]

-- With any count that selects the entries.
pub counted-Continues :
    (sent entries tail : Iovec) (count writeret : ℕ)
    → take count (entries ++ tail) ≡ entries
    → 0 < writeret
    → writeret ≤ size entries
    → size entries < 2 ^ 32
    → Continues sent entries tail writeret
        (check_iov_total_written (sent ++ (entries ++ tail)) (length sent) count writeret)
unfolding check_iov_total_written
counted-Continues sent entries tail count writeret chosen lo le hi =
    let s = total_loop writeret 0 record { total = 0; tmptotal = 0; found = 0 } entries in
    let x = total_loop-Ends writeret 0 0 0 entries lo (omega arith) (omega arith) in
    let hit : (s.tmptotal == 0) ≡ false = ground (arith, x.tmptotal, x.past) in
    let offered : take count (drop (length sent) (sent ++ (entries ++ tail))) ≡ entries =
      ap (take count) (drop-append_length sent (entries ++ tail)) ∙ chosen in
    let at : s.found ≡ length x.before = x.found ∙ omega arith in
    let upto : s.tmptotal ≡ size x.before + length x.entry = x.tmptotal ∙ omega arith in
    rw (offered, hit, at, upto)
      (subst
        (λ es. Continues sent es tail writeret (
          settle (sent ++ (es ++ tail)) (length sent) writeret s.total
            (size x.before + length x.entry) (length x.before)))
        (sym x.parts)
        (settle-Continues sent x.before x.after tail x.entry writeret s.total
          (omega (arith, x.past)) (omega (arith, x.reached))))

-- When the kernel took at least one byte and at most all the bytes of the `count` entries that it
-- was offered, which are fewer than 2 ^ 32, the call gives the index of an entry at or behind the
-- first offered one, and the bytes of the table from that entry on are then exactly those that the
-- kernel has not taken, in order: none is skipped and none is sent again.
pub check_iov_total_written-Continues :
    (sent entries tail : Iovec) (writeret : ℕ)
    → 0 < writeret
    → writeret ≤ size entries
    → size entries < 2 ^ 32
    → Continues sent entries tail writeret (
        check_iov_total_written (sent ++ (entries ++ tail)) (length sent) (length entries) writeret)
check_iov_total_written-Continues sent entries tail writeret =
    counted-Continues sent entries tail (length entries) writeret (take-append_length entries tail)
