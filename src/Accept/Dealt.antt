-- ===== src/Accept/Dealt.antt =====
-- Which communication thread gets which connection.
use mathlib.Core.List.{append_assoc, append-nil}
use acached.Prelude.{
  ℕ, suc, ◌+◌, ◌%◌, ◌≡◌, refl, sym, ap, ◌∙◌, List, [], ◌∷◌, ◌++◌, Option, none, some, ◌==◌,
  if◌then◌else◌, arith, Bool-cases, inl, inr,
}
use acached.Comm.{PipeMsg, init_fd}
use acached.Accept.{Server, no_fd, next_index, hand_over, accept_one, accept_all}

-- What is handed over for a result of `accept`.
abbrev pub message : Option ℕ → PipeMsg
message none = init_fd no_fd
message (some fd) = init_fd fd

-- Every second of the results, from the first on if the turn is the thread's own.
abbrev pub dealt : ℕ → ℕ → List (Option ℕ) → List PipeMsg
dealt i turn [] = []
dealt i turn (a ∷ accepted) =
    let rest = dealt i (suc turn) accepted in if i == turn % 2 then message a ∷ rest else rest

abbrev pub failures : List (Option ℕ) → ℕ
failures [] = 0
failures (none ∷ accepted) = suc (failures accepted)
failures (some fd ∷ accepted) = failures accepted

turn_next : (turn : ℕ) → next_index (turn % 2) ≡ suc turn % 2
turn_next turn = ground arith

record Handed (a : Option ℕ) (s s' : Server) : Type 0 where
  pipes :
      (i : ℕ)
      → s'.pipes i ≡ (if i == s.curr_comm_index then s.pipes i ++ message a ∷ [] else s.pipes i)
  index : s'.curr_comm_index ≡ next_index s.curr_comm_index
  closed : s'.closed ≡ s.closed + failures (a ∷ [])

accept_one-Handed : (a : Option ℕ) (s : Server) → Handed a s (accept_one a s)
unfolding accept_one hand_over
accept_one-Handed none s = record { pipes = λ i. refl; index = refl; closed = omega arith }
accept_one-Handed (some fd) s = record { pipes = λ i. refl; index = refl; closed = omega arith }

failures-cons :
    (a : Option ℕ) (l : List (Option ℕ)) → failures (a ∷ l) ≡ failures (a ∷ []) + failures l
failures-cons none l = omega arith
failures-cons (some fd) l = omega arith

-- However many results of `accept` come, the communication threads get them in turn and in order,
-- beginning with the one whose turn it is: each pipe has behind its messages one for every second
-- result. A failed `accept` counts as a
-- connection, too, whose socket is -1, and each closes the listening socket.
pub accept_all-dealt :
    (turn : ℕ) (accepted : List (Option ℕ)) (s : Server)
    → s.curr_comm_index ≡ turn % 2
    → ((i : ℕ) → (accept_all accepted s).pipes i ≡ s.pipes i ++ dealt i turn accepted)
      × ((accept_all accepted s).closed ≡ s.closed + failures accepted)
unfolding accept_all
accept_all-dealt turn [] s e = (λ i. sym (append-nil (s.pipes i)), omega arith)
accept_all-dealt turn (a ∷ accepted) s e =
    let h = accept_one-Handed a s in
    let index : (accept_one a s).curr_comm_index ≡ suc turn % 2 =
      h.index ∙ ap next_index e ∙ turn_next turn in
    let (pipes, closed) = accept_all-dealt (suc turn) accepted (accept_one a s) index in
    (
      λ i.
          pipes i
          ∙ ap (λ l. l ++ dealt i (suc turn) accepted)
              (h.pipes i ∙ ap (λ j. if i == j then s.pipes i ++ message a ∷ [] else s.pipes i) e)
          ∙ elim (Bool-cases (i == turn % 2)) [
            | inl own ↦
                rw own (append_assoc (s.pipes i) (message a ∷ []) (dealt i (suc turn) accepted))
            | inr other ↦ rw other refl
          ],
      omega (arith, closed, h.closed, failures-cons a accepted),
    )
