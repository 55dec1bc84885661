-- ===== src/Parse/Command.antt =====
-- aConnParse.cpp: `aConn::SetCommandType`. The memory is what can be read from the buffer's base on,
-- `none` a read behind it.
pub mod Keywords
use acached.Prelude.{
  ℕ, ◌+◌, ◌-◌, List, [], ◌∷◌, Bool, ◌&&◌, ◌||◌, Option, none, some, ◌==◌, ltb, if◌then◌else◌,
}
use acached.Table.Memory.{same_prefix}

-- `aCmdType`, as far as the server sets it
pub data CmdType : Type 0 where
  gets set quit version : CmdType

unfoldable pub isblank : ℕ → Bool
isblank c = (c == b' ') || (c == 0)

-- The pointer and the length behind the leading blanks.
unfoldable pub skip_blank : List ℕ → ℕ → Option (List ℕ × ℕ)
unfolding isblank
skip_blank [] len = none
skip_blank (c ∷ cs) len =
    let rest = skip_blank cs (len - 1) in
    if isblank c && ltb 0 len then rest else some (c ∷ cs, len)

-- What the call returns, `none` for -1, and `cmd.ctype` where it is assigned.
pub record Selected : Type 0 where
  pub ret : Option CmdType
  pub ctype : Option CmdType

-- `if (strncmp(bufptr, word, n) == 0) … else …`
unfoldable pub branch : List ℕ → List ℕ → ℕ → Selected → Option Selected → Option Selected
unfolding same_prefix
branch bufptr word n chosen otherwise = elim (same_prefix bufptr word n) [
  | none ↦ none
  | some same ↦ if same then some chosen else otherwise
]

abbrev pub failed : Selected
failed = record { ret = none; ctype = none }

abbrev pub selected : CmdType → CmdType → Selected
selected ret ctype = record { ret = some ret; ctype = some ctype }

-- The chain of tests.
unfoldable pub select : List ℕ → Option Selected
unfolding branch
select bufptr = branch bufptr (b's' ∷ b'e' ∷ b't' ∷ []) 3 (selected set set) (
    branch bufptr (b'v' ∷ b'e' ∷ b'r' ∷ b's' ∷ b'i' ∷ b'o' ∷ b'n' ∷ []) 7 (selected quit version) (
      branch bufptr (b'q' ∷ b'u' ∷ b'i' ∷ b't' ∷ []) 4 (selected quit quit) (
        branch bufptr (b'g' ∷ b'e' ∷ b't' ∷ []) 3 (selected gets gets)
          (branch bufptr (b'g' ∷ b'e' ∷ b't' ∷ b's' ∷ []) 4 (selected gets gets) (some failed)))))

unfoldable pub set_command_type : ℕ → List ℕ → Option Selected
unfolding skip_blank select
set_command_type iov_len memory = elim (skip_blank memory iov_len) [
  | none ↦ none
  | some (bufptr, len) ↦ if ltb 5 len then select bufptr else some failed
]
