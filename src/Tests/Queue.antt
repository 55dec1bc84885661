-- ===== src/Tests/Queue.antt =====
-- A shared queue of two pointers, and one whose only reader waits when a message is put.
use acached.Prelude.{[], ◌∷◌, false, refl, arith}
use acached.Queue.Shared.{SharedQ}
use acached.Queue.{a_q_put, a_q_get}
use acached.Queue.Threaded.{Threaded, Reach, Served, Reach-Served, here, next, put_signal, take}

abbrev two : SharedQ
two = record { q = record { type = 0; items = 5 ∷ 6 ∷ [] }; locked = false }

abbrev one : SharedQ
one = record { q = record { type = 0; items = 6 ∷ [] }; locked = false }

abbrev asleep : Threaded
asleep = record {
  q = record { type = 0; items = [] };
  waiting = 1;
  awake = 0;
  elsewhere = 0;
  put = [];
  taken = [];
}

abbrev served : Threaded
served = record {
  q = record { type = 0; items = [] };
  waiting = 0;
  awake = 0;
  elsewhere = 1;
  put = 5 ∷ [];
  taken = 5 ∷ [];
}

two_steps : Reach asleep served
unfolding a_q_put a_q_get
two_steps =
    next (next here (put_signal 5 0 refl)) (take 0 5 _ refl (ground arith) refl (ground arith))

Reach-Served_example : Served served
Reach-Served_example =
    Reach-Served two_steps (record { order = refl; awake = λ _. refl; readers = omega arith })
