-- ===== src/Tests/Receive.antt =====
-- A body of two bytes, whose first comes with the header or which comes in pieces.
use acached.Prelude.{
  ℕ, ◌≡◌, refl, List, [], ◌∷◌, true, false, Option, none, some, ◌==◌, if◌then◌else◌, replicate,
  arith,
}
use acached.Conn.{body_wait}
use acached.Parse.Tokens.Words.{words, words_from}
use acached.Parse.Command.{set}
use acached.Parse.Header.{Cmd, process_set}
use acached.Parse.Header.Outcomes.{by_words, result, process_set-words}
use acached.Parse.Line.Ends.{contains}
use acached.Receive.{Buffer, Receiver, Input, process_data_recv}
use acached.Receive.Body.{Filled}
use acached.Receive.Start.{Waiting, Leftover}
use acached.Receive.Pieces.{body_in_one, body_in_two}
use acached.Receive.Lost.{body_part_lost}

abbrev pub clear : Buffer
clear = record {
  memory = [];
  iov_len = 0;
  base_offset = 0;
  alloc_size = 0;
  hdr = false;
  hdr_part = false;
  body = false;
  body_part = false;
}

abbrev pub hi : Cmd
hi = record { ctype = set; key = replicate 256 0; keylen = 1; flags = 0; exptime = 0; datalen = 2 }

-- The buffer of the header, cut to its last three bytes, and what came with it.
abbrev header : List ℕ → ℕ → Buffer
header pending len = record clear {
  memory = b'2' ∷ 0 ∷ 0 ∷ pending;
  iov_len = len;
  base_offset = 3;
  hdr = true;
}

abbrev pub waits : Buffer → ℕ → Receiver
waits b flag = record {
  state = body_wait;
  cmd = hi;
  buffers = λ i. if i == 0 then b else clear;
  iov_index = 0;
  iov_index_hdr = 0;
  data_pending_read = flag;
  aerrnum = 0;
  aerrtype = 0;
}

abbrev pub reads : Option (List ℕ) → Input
reads available = record { fresh = replicate 4 7; available = available; errno = 11; sent = some 1 }

abbrev one : Receiver
one = waits (header (b'h' ∷ []) 4) 1

one-Waiting : Waiting one (b'h' ∷ [])
one-Waiting = record {
  state = refl;
  not_begun = refl;
  in_arrays = omega arith;
  clear_len = refl;
  clear_offset = refl;
  flag = refl;
}

one-Leftover : Leftover one (b'h' ∷ [])
one-Leftover = record { iov_len = refl; small = omega arith; held = refl }

body_in_one_example :
    (r' : Receiver) × (process_data_recv (reads (some (b'i' ∷ b'\r' ∷ b'\n' ∷ b'g' ∷ []))) one
      ≡ some (some 4, r'))
    × Filled r' (b'h' ∷ b'i' ∷ b'\r' ∷ b'\n' ∷ [])
body_in_one_example =
    body_in_one (reads (some (b'i' ∷ b'\r' ∷ b'\n' ∷ b'g' ∷ []))) one (b'h' ∷ [])
      (b'i' ∷ b'\r' ∷ b'\n' ∷ b'g' ∷ []) (omega arith) (omega arith) one-Waiting one-Leftover
      (omega arith) refl (omega arith)

body_in_two_example :
    (r' : Receiver) × (r'' : Receiver) × (process_data_recv (reads (some (b'i' ∷ []))) one
      ≡ some (some 2, r'))
    × (process_data_recv (reads (some (b'\r' ∷ b'\n' ∷ []))) r' ≡ some (some 4, r''))
    × Filled r'' (b'h' ∷ b'i' ∷ b'\r' ∷ b'\n' ∷ [])
body_in_two_example =
    body_in_two (reads (some (b'i' ∷ []))) (reads (some (b'\r' ∷ b'\n' ∷ []))) one (b'h' ∷ [])
      (b'i' ∷ []) (b'\r' ∷ b'\n' ∷ []) (omega arith) (omega arith) one-Waiting one-Leftover refl
      (omega arith) (omega arith) refl (omega arith)

body_part_lost_example :
    (r' : Receiver) × (r'' : Receiver) × (process_data_recv (reads none) one ≡ some (none, r'))
    × (process_data_recv (reads (some (b'i' ∷ b'\r' ∷ b'\n' ∷ b'g' ∷ []))) r' ≡ some (some 4, r''))
    × Filled r'' (b'i' ∷ b'\r' ∷ b'\n' ∷ b'g' ∷ [])
body_part_lost_example =
    body_part_lost (reads none) (reads (some (b'i' ∷ b'\r' ∷ b'\n' ∷ b'g' ∷ []))) one (b'h' ∷ [])
      (b'i' ∷ b'\r' ∷ b'\n' ∷ b'g' ∷ []) (omega arith) (omega arith) one-Waiting one-Leftover
      (omega arith) refl (omega arith) refl refl refl refl (omega arith)

abbrev two : Receiver
two =
    record (waits
      (record clear {
        memory = b'h' ∷ 7 ∷ 7 ∷ 7 ∷ [];
        iov_len = 1;
        base_offset = 1;
        alloc_size = 4;
        body_part = true;
      })
      0) { iov_index = 0 }

abbrev five : List ℕ
five = b'h' ∷ b'i' ∷ b'\r' ∷ b'\n' ∷ b'g' ∷ []

abbrev short_line : List ℕ
short_line = b's' ∷ b'e' ∷ b't' ∷ b' ' ∷ b'k' ∷ b' ' ∷ b'0' ∷ []

process_set-words_example : result (process_set short_line hi) ≡ none
unfolding words words_from by_words contains
process_set-words_example = process_set-words short_line hi refl
