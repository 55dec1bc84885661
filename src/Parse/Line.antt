-- ===== src/Parse/Line.antt =====
-- aConnParse.cpp: `aConn::IsBufferComplete`, the search for the end of the request line. The memory
-- is what can be read from the buffer's base on, `none` a read behind it.
pub mod Ends
use acached.Prelude.{
  ℕ, ◌+◌, ◌-◌, ◌%◌, ◌^◌, List, [], ◌∷◌, Option, none, some, ◌==◌, ltb, if◌then◌else◌,
}

pub record Completion : Type 0 where
  pub found : ℕ
  pub memory : List ℕ

abbrev pub behind : ℕ → Option Completion → Option Completion
behind c none = none
behind c (some l) = some record l { memory = c ∷ l.memory }

-- The while loop with `ptr` at `offset`. `i` stays 0, so that its test does not end it.
unfoldable pub scan_line : ℕ → List ℕ → Option Completion
scan_line offset [] = none
scan_line offset (c ∷ []) = none
scan_line offset (c ∷ d ∷ ds) =
    let after_pair = behind c (behind d (scan_line (offset + 2) ds)) in
    let after_byte = behind c (scan_line (offset + 1) (d ∷ ds)) in
    if c == b'\r'
    then (if d == b'\n'
        then some record { found = (offset + 2) % 2 ^ 32; memory = 0 ∷ 0 ∷ ds }
        else after_pair)
    else after_byte

-- `IOVECLEN - 1` is a `size_t`.
unfoldable pub is_buffer_complete : ℕ → List ℕ → Option Completion
is_buffer_complete iov_len memory =
    if ltb 0 ((iov_len + (2 ^ 64 - 1)) % 2 ^ 64)
    then scan_line 0 memory
    else some record { found = 0; memory = memory }
