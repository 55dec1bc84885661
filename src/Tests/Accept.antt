-- ===== src/Tests/Accept.antt =====
-- Connections from the listening socket, and texts that the kernel takes in part.
use acached.Prelude.{ℕ, ◌≡◌, refl, [], ◌∷◌, ◌++◌, ◌+◌, false, none, some, arith, inr}
use acached.Comm.{init_fd}
use acached.Accept.{Server, no_fd, accept_all, sendall}
use acached.Accept.Dealt.{dealt, failures, accept_all-dealt}
use acached.Accept.Sendall.{sendall-sent}

abbrev server : Server
server = record { pipes = λ i. []; curr_comm_index = 0; closed = 0 }

accept_all-dealt_example :
    ((i : ℕ)
      → (accept_all (some 9 ∷ none ∷ some 10 ∷ []) server).pipes i
        ≡ server.pipes i ++ dealt i 0 (some 9 ∷ none ∷ some 10 ∷ []))
    × ((accept_all (some 9 ∷ none ∷ some 10 ∷ []) server).closed
        ≡ server.closed + failures (some 9 ∷ none ∷ some 10 ∷ []))
accept_all-dealt_example = accept_all-dealt 0 (some 9 ∷ none ∷ some 10 ∷ []) server (omega arith)

first_pipe : dealt 0 0 (some 9 ∷ none ∷ some 10 ∷ []) ≡ init_fd 9 ∷ init_fd 10 ∷ []
first_pipe = refl

second_pipe : dealt 1 0 (some 9 ∷ none ∷ some 10 ∷ []) ≡ init_fd no_fd ∷ []
second_pipe = refl

sendall-sent_example :
    sendall (some 1 ∷ some 1 ∷ none ∷ []) (b'a' ∷ b'b' ∷ b'c' ∷ []) ≡ some (false, 2)
sendall-sent_example =
    sendall-sent (some 1 ∷ some 1 ∷ none ∷ []) (b'a' ∷ b'b' ∷ b'c' ∷ []) (omega arith) (inr refl)
