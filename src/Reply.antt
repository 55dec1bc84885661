-- ===== src/Reply.antt =====
-- aConnReply.cpp: the table of reply entries and what a partial write makes of it. An entry is the
-- list of the bytes from its base on, as many as its length says.
pub mod Written
pub mod Progress
pub mod Once
pub mod Queued
use acached.Atomic.{compare_and_swap}
use acached.Prelude.{
  ℕ, suc, ◌+◌, ◌-◌, ◌%◌, ◌^◌, ◌≡◌, List, [], ◌∷◌, ◌++◌, Bool, true, false, ◌&&◌, Option, none, some,
  ◌==◌, leb, ltb, if◌then◌else◌, length, get_or, set, take, drop,
}

abbrev pub Iovec : Type 0
Iovec = List (List ℕ)

-- The bytes of the entries, one after another.
abbrev pub stream : Iovec → List ℕ
stream [] = []
stream (e ∷ es) = e ++ stream es

abbrev pub size : Iovec → ℕ
size [] = 0
size (e ∷ es) = length e + size es

-- The variables of the for loop.
pub record Totals : Type 0 where
  pub total : ℕ
  pub tmptotal : ℕ
  pub found : ℕ

abbrev pub count_entry : ℕ → ℕ → ℕ → Totals → Totals
count_entry writeret i total s =
    if leb writeret total && (s.tmptotal == 0)
    then record { total = total; tmptotal = total; found = i }
    else record s { total = total }

-- The for loop over the entries from `start + i` on.
unfoldable pub total_loop : ℕ → ℕ → Totals → Iovec → Totals
total_loop writeret i s [] = s
total_loop writeret i s (e ∷ es) =
    total_loop writeret (suc i) (count_entry writeret i ((s.total + length e) % 2 ^ 32) s) es

-- What the call returns, `*iovEnd` (`none` where it is not assigned), `*totalptr`, and the table.
pub record Checked : Type 0 where
  pub complete : Bool
  pub iov_end : Option ℕ
  pub total : ℕ
  pub iovec : Iovec

-- The tests behind the loop, with `total` and `i` as they stand there.
unfoldable pub settle : Iovec → ℕ → ℕ → ℕ → ℕ → ℕ → Checked
settle iovec start writeret totalptr total i =
    let iov_end = start + i in
    let entry = get_or iovec iov_end [] in
    let seek = writeret - (total - length entry) in
    if total == writeret
    then record { complete = true; iov_end = some (start + suc i); total = totalptr; iovec = iovec }
    else (if ltb writeret total
        then record {
          complete = false;
          iov_end = some iov_end;
          total = totalptr;
          iovec = set iovec iov_end (drop seek entry);
        }
        else record { complete = false; iov_end = none; total = totalptr; iovec = iovec })

unfoldable pub check_iov_total_written : Iovec → ℕ → ℕ → ℕ → Checked
check_iov_total_written iovec start count writeret =
    let s =
      total_loop writeret 0 (record { total = 0; tmptotal = 0; found = 0 })
        (take count (drop start iovec)) in
    if s.tmptotal == 0
    then settle iovec start writeret s.total s.total count
    else settle iovec start writeret s.total s.tmptotal s.found

-- What one `sendmsg` returns: the bytes taken, 0, -1 with `EINTR`, or -1 with another error.
pub data Send : Type 0 where
  took : ℕ → Send
  closed interrupted error : Send

-- What the reply calls return: the value of the last `sendmsg`, or -2.
pub data Outcome : Type 0 where
  wrote : ℕ → Outcome
  gave_zero gave_error unavailable : Outcome

-- The parts of the connection that a write uses.
pub record Writer : Type 0 where
  pub iovec : Iovec
  pub windexlast : ℕ
  pub writingflag : ℕ

abbrev pub iov_max : ℕ
iov_max = 1024

-- The do-while loop; `none` where the kernel's answers end with interrupted calls.
unfoldable pub send_loop : List Send → Option Send
send_loop [] = none
send_loop (took n ∷ sends) = some (took n)
send_loop (closed ∷ sends) = some closed
send_loop (interrupted ∷ sends) = send_loop sends
send_loop (error ∷ sends) = some error

abbrev clear : Writer → Writer
clear w = record w { writingflag = (compare_and_swap w.writingflag 1 0).1 }

-- `windexlast` moves from `start` to `iovEnd`; an `iovEnd` that was not assigned is a fault.
unfoldable pub advance : ℕ → ℕ → Checked → Writer → Option (Outcome × Writer)
unfolding compare_and_swap
advance start n c w = elim c.iov_end [
  | none ↦ none
  | some iov_end ↦ some (
    wrote n,
    clear (record w {
      iovec = c.iovec;
      windexlast = (compare_and_swap w.windexlast start iov_end).1;
    }),
  )
]

-- What follows the loop of calls.
unfoldable pub conclude : ℕ → ℕ → Send → Writer → Option (Outcome × Writer)
unfolding compare_and_swap check_iov_total_written advance
conclude start count (took n) w =
    if n == 0
    then some (gave_zero, clear w)
    else advance start n (check_iov_total_written w.iovec start count n) w
conclude start count closed w = some (gave_zero, clear w)
conclude start count interrupted w = none
conclude start count error w = some (gave_error, clear w)

-- `sends` are the answers of the kernel, one per call.
unfoldable pub write_iov_reply : List Send → ℕ → ℕ → Writer → Option (Outcome × Writer)
unfolding compare_and_swap send_loop conclude
write_iov_reply sends start count w =
    let (old, flag) = compare_and_swap w.writingflag 0 1 in
    let held = record w { writingflag = flag } in
    let offered = if ltb iov_max count then iov_max else count in
    if old == 0
    then elim (send_loop sends) [ none ↦ none | some ret ↦ conclude start offered ret held ]
    else some (unavailable, held)
