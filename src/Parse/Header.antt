-- ===== src/Parse/Header.antt =====
-- aConnParse.cpp: `aConn::ProcessHeader`, and the command of a connection (aConn.h).
pub mod Strings
pub mod Outcomes
use acached.Prelude.{
  ℕ, zero, suc, ◌+◌, ◌-◌, ◌%◌, ◌^◌, List, [], ◌∷◌, ◌++◌, Bool, true, false, ◌&&◌, Option, none,
  some, ◌==◌, ltb, if◌then◌else◌, length, take, drop, replicate, get_elem?,
}
use acached.Parse.Tokens.{Token, tokenize_command}
use acached.Parse.Number.{safe_strtoul}
use acached.Parse.Command.{CmdType, gets, set, quit, version, skip_blank}

-- `key` are the bytes of the array.
pub record Cmd : Type 0 where
  pub ctype : CmdType
  pub key : List ℕ
  pub keylen : ℕ
  pub flags : ℕ
  pub exptime : ℕ
  pub datalen : ℕ

abbrev pub key_array_size : ℕ
key_array_size = 256

abbrev pub max_tokens : ℕ
max_tokens = 8

-- The bytes before the first NUL, `none` when there is no NUL.
unfoldable pub c_string : List ℕ → Option (List ℕ)
c_string [] = none
c_string (c ∷ cs) =
    let rest = c_string cs in
    if c == 0 then some [] else elim rest [ none ↦ none | some s ↦ some (c ∷ s) ]

-- The string at an offset of the command, which ends with the command or at an overwritten space.
unfoldable pub string_at : List ℕ → ℕ → List ℕ
unfolding c_string
string_at command offset = elim (c_string (drop offset command)) [
  | none ↦ drop offset command
  | some s ↦ s
]

-- The bytes that `strncpy` writes: those before the NUL, and NULs up to `n`.
unfoldable pub strncpy : List ℕ → ℕ → List ℕ
strncpy s zero = []
strncpy [] (suc n) = 0 ∷ strncpy [] n
strncpy (c ∷ s) (suc n) = c ∷ strncpy s n

-- What the call returns, the command, and the buffer with the spaces overwritten. When it returns
-- false the caller's error is `AERR_TOKENIZER_CMD_INVALID_HDR`.
pub record Header : Type 0 where
  pub ret : Bool
  pub cmd : Cmd
  pub command : List ℕ

-- The value of `safe_strtoul`'s argument `out`.
abbrev pub out : Option ℕ → ℕ
out none = 0
out (some n) = n

abbrev pub is_some : Option ℕ → Bool
is_some none = false
is_some (some n) = true

-- The fields from the five tokens that are read. The key does not fit when it is longer than the
-- array.
unfoldable pub fill : List ℕ → Token → Token → Token → Token → Cmd → Option Header
unfolding string_at strncpy safe_strtoul
fill command key flags exptime datalen cmd =
    let keylen = key.length % 2 ^ 32 in
    let flags = safe_strtoul (string_at command flags.value) in
    let exptime = safe_strtoul (string_at command exptime.value) in
    let datalen = safe_strtoul (string_at command datalen.value) in
    if ltb key_array_size keylen
    then none
    else some record {
      ret = is_some flags && is_some exptime && is_some datalen;
      cmd = record cmd {
        key = strncpy (string_at command key.value) keylen ++ drop keylen cmd.key;
        keylen = keylen;
        flags = out flags;
        exptime = out exptime;
        datalen = out datalen;
      };
      command = command;
    }

-- Behind the blanks. With two to four tokens the test `i > 2` lets entries of the array be read
-- that are not tokens: the last is the `NULL` of the terminal token, on which `safe_strtoul` aborts,
-- or is not set.
unfoldable pub process_tokens : List ℕ → List Token → Cmd → Option Header
unfolding fill
process_tokens command [] cmd = some record { ret = false; cmd = cmd; command = command }
process_tokens command (name ∷ []) cmd = some record { ret = false; cmd = cmd; command = command }
process_tokens command (name ∷ key ∷ []) cmd = none
process_tokens command (name ∷ key ∷ flags ∷ []) cmd = none
process_tokens command (name ∷ key ∷ flags ∷ exptime ∷ []) cmd = none
process_tokens command (name ∷ key ∷ flags ∷ exptime ∷ datalen ∷ rest) cmd =
    fill command key flags exptime datalen cmd

unfoldable pub process_set : List ℕ → Cmd → Option Header
unfolding tokenize_command process_tokens
process_set command cmd =
    let t = tokenize_command command max_tokens in process_tokens t.command t.tokens cmd

-- The bytes of the memory, in which the command stands behind its blanks.
abbrev pub in_memory : List ℕ → List ℕ → List ℕ → List ℕ
in_memory memory behind command =
    let blanks : ℕ = length memory - length behind in
    take blanks memory ++ command ++ drop (length command) behind

pub record Processed : Type 0 where
  pub ret : Bool
  pub cmd : Cmd
  pub memory : List ℕ

-- `none`: a read behind the memory, an abort, or a key that does not fit.
unfoldable pub process_header : ℕ → List ℕ → Cmd → Option Processed
unfolding skip_blank c_string process_set
process_header iov_len memory cmd =
    let as_it_is : Processed = record { ret = true; cmd = cmd; memory = memory } in
    let for_set : List ℕ → Option Processed = λ behind. elim (c_string behind) [
      | none ↦ none
      | some command ↦ elim (process_set command cmd) [
        | none ↦ none
        | some h ↦
            some record { ret = h.ret; cmd = h.cmd; memory = in_memory memory behind h.command }
      ]
    ] in
    elim (skip_blank memory iov_len) [
      | none ↦ none
      | some (behind, len) ↦ elim cmd.ctype [ set ↦ for_set behind | _ ↦ some as_it_is ]
    ]
