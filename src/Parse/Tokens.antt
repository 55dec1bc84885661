-- ===== src/Parse/Tokens.antt =====
-- aConnParse.cpp: `tokenize_command`. A pointer into the command is its offset.
pub mod Words
use acached.Prelude.{
  ℕ, zero, suc, ◌+◌, ◌-◌, ◌≡◌, List, [], ◌∷◌, ◌++◌, Option, none, some, ◌==◌, if◌then◌else◌, length,
  get_or, take, drop,
}

pub record Token : Type 0 where
  pub value : ℕ
  pub length : ℕ

-- The tokens found so far, the command with the spaces behind them overwritten, and the two
-- pointers.
pub record Scan : Type 0 where
  pub tokens : List Token
  pub command : List ℕ
  pub s : ℕ
  pub e : ℕ

-- The for loop over the bytes from `e` on.
unfoldable pub tokenize_loop : ℕ → ℕ → ℕ → ℕ → List ℕ → Scan
tokenize_loop max_tokens ntokens s e [] = record { tokens = []; command = []; s = s; e = e }
tokenize_loop max_tokens ntokens s e (c ∷ cs) =
    let broken : Scan = record {
      tokens = record { value = s; length = e - s } ∷ [];
      command = 0 ∷ cs;
      s = e + 1;
      e = e + 1;
    } in
    let after_token : Scan = tokenize_loop max_tokens (ntokens + 1) (e + 1) (e + 1) cs in
    let after_space : Scan = tokenize_loop max_tokens ntokens (e + 1) (e + 1) cs in
    let after_byte : Scan = tokenize_loop max_tokens ntokens s (e + 1) cs in
    if c == b' '
    then (if s == e
        then record after_space { command = c ∷ after_space.command }
        else (if ntokens + 1 == max_tokens - 1 then broken else record after_token {
          tokens = record { value = s; length = e - s } ∷ after_token.tokens;
          command = 0 ∷ after_token.command;
        }))
    else record after_byte { command = c ∷ after_byte.command }

pub record Tokens : Type 0 where
  pub tokens : List Token
  -- the value of the terminal token, `none` for `NULL`
  pub terminal : Option ℕ
  pub command : List ℕ

-- `command` is the string without its NUL. The call returns `ntokens`, one more than the tokens.
unfoldable pub tokenize_command : List ℕ → ℕ → Tokens
unfolding tokenize_loop
tokenize_command command max_tokens =
    let scan = tokenize_loop max_tokens 0 0 0 command in
    record {
      tokens =
          scan.tokens
          ++ (if scan.s == scan.e
              then []
              else record { value = scan.s; length = scan.e - scan.s } ∷ []);
      terminal = if get_or scan.command scan.e 0 == 0 then none else some scan.e;
      command = scan.command;
    }

-- The bytes of a token.
abbrev pub text_of : List ℕ → Token → List ℕ
text_of command t = take t.length (drop t.value command)
