-- ===== src/Accept/Sendall.antt =====
-- When `sendall` returns, and what.
use Prim.Native.Nat.{min}
use acached.Prelude.{
  ℕ, ◌+◌, ◌-◌, ◌≤◌, ◌<◌, ◌≡◌, refl, ◌∙◌, List, [], ◌∷◌, Bool, true, false, Option, none, some, ◌==◌,
  ltb, leb, ◌⊎◌, ap, length, arith, Bool-cases, inl, inr,
}
use acached.Accept.{send_all_loop, sendall}

-- The room before a call fails, and whether one does.
abbrev pub capacity : List (Option ℕ) → ℕ
capacity [] = 0
capacity (none ∷ rooms) = 0
capacity (some room ∷ rooms) = room + capacity rooms

abbrev pub some_fail : List (Option ℕ) → Bool
some_fail [] = false
some_fail (none ∷ rooms) = true
some_fail (some room ∷ rooms) = some_fail rooms

send_all_loop-all :
    (rooms : List (Option ℕ)) (total bytesleft len : ℕ)
    → total + bytesleft ≡ len
    → 0 < bytesleft
    → bytesleft ≤ capacity rooms
    → send_all_loop rooms total bytesleft len ≡ some (false, len)
unfolding send_all_loop
send_all_loop-all [] total bytesleft len e lo le = absurd (omega arith)
send_all_loop-all (none ∷ rooms) total bytesleft len e lo le = absurd (omega arith)
send_all_loop-all (some room ∷ rooms) total bytesleft len e lo le =
    elim (Bool-cases (ltb (total + min room bytesleft) len)) [
      | inl more ↦ rw more (
          send_all_loop-all rooms (total + min room bytesleft) (bytesleft - min room bytesleft) len
            (ground arith) (ground arith) (ground arith))
      | inr done ↦ rw done (ap (λ n. some (false, n)) (ground arith))
    ]

send_all_loop-failed :
    (rooms : List (Option ℕ)) (total bytesleft len : ℕ)
    → total + bytesleft ≡ len
    → capacity rooms < bytesleft
    → some_fail rooms ≡ true
    → send_all_loop rooms total bytesleft len ≡ some (true, total + capacity rooms)
unfolding send_all_loop
send_all_loop-failed [] total bytesleft len e lt f = absurd (ground (arith, f))
send_all_loop-failed (none ∷ rooms) total bytesleft len e lt f =
    ap (λ n. some (true, n)) (omega arith)
send_all_loop-failed (some room ∷ rooms) total bytesleft len e lt f =
    let part : min room bytesleft ≡ room = ground arith in
    let more : ltb (total + room) len ≡ true = ground arith in
    rw (part, more)
      (send_all_loop-failed rooms (total + room) (bytesleft - room) len (omega arith) (omega arith)
          f
        ∙ ap (λ n. some (true, n)) (omega arith))

-- If there is something to send and the calls of `send` either make room for all of it or end with
-- one that fails, `sendall` returns: 0 exactly if there was room for everything, and in `*len` the
-- bytes sent, which are all of them or what there was room for before the failure.
pub sendall-sent :
    (rooms : List (Option ℕ)) (buf : List ℕ)
    → 0 < length buf
    → (length buf ≤ capacity rooms) ⊎ (some_fail rooms ≡ true)
    → sendall rooms buf
      ≡ some (leb (length buf) (capacity rooms), min (length buf) (capacity rooms))
unfolding sendall
sendall-sent rooms buf lo settled =
    let some_bytes : (length buf == 0) ≡ false = ground arith in
    elim (Bool-cases (leb (length buf) (capacity rooms))) [
      | inl fits ↦
          let all : min (length buf) (capacity rooms) ≡ length buf = ground arith in
          rw
            (
              sendall,
              some_bytes,
              fits,
              all,
              send_all_loop-all rooms 0 (length buf) (length buf) (omega arith) lo (ground arith),
            )
            refl
      | inr short ↦
          let part : min (length buf) (capacity rooms) ≡ capacity rooms = ground arith in
          let failed : some_fail rooms ≡ true = ground arith in
          rw
            (
              sendall,
              some_bytes,
              short,
              part,
              send_all_loop-failed rooms 0 (length buf) (length buf) (omega arith) (ground arith)
                  failed,
            )
            (ap (λ n. some (false, n)) (omega arith))
    ]
