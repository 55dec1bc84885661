-- ===== src/Parse/Header/Outcomes.antt =====
-- What `ProcessHeader` does with a set command, by the words of its line.
use acached.Prelude.{
  ℕ, ◌%◌, ◌^◌, ◌≡◌, refl, List, [], ◌∷◌, ◌++◌, Bool, false, ◌&&◌, Option, none, some, ltb,
  if◌then◌else◌, length, take, drop, arith, map, ap, ◌∙◌, Bool-cases, inl, inr,
}
use acached.Parse.Tokens.{Token, tokenize_command}
use acached.Parse.Tokens.Words.{words}
use acached.Parse.Number.{safe_strtoul}
use acached.Parse.Header.{
  Cmd, Header, key_array_size, max_tokens, out, is_some, strncpy, fill, process_tokens, process_set,
}
use acached.Parse.Header.Strings.{NoNul, measured, counted, tokenize_command-measured}

-- The return value and the command for a line of these words.
unfoldable pub by_words : Cmd → List (List ℕ) → Option (Bool × Cmd)
unfolding strncpy safe_strtoul
by_words cmd (name ∷ key ∷ flags ∷ exptime ∷ datalen ∷ rest) =
    let keylen = length key % 2 ^ 32 in
    let numbers =
      is_some (safe_strtoul flags)
      && is_some (safe_strtoul exptime)
      && is_some (safe_strtoul datalen) in
    if ltb key_array_size keylen
    then none
    else some (
      numbers,
      record cmd {
        key = strncpy key keylen ++ drop keylen cmd.key;
        keylen = keylen;
        flags = out (safe_strtoul flags);
        exptime = out (safe_strtoul exptime);
        datalen = out (safe_strtoul datalen);
      },
    )
by_words cmd [] = some (false, cmd)
by_words cmd (name ∷ []) = some (false, cmd)
by_words cmd (name ∷ key ∷ []) = none
by_words cmd (name ∷ key ∷ flags ∷ []) = none
by_words cmd (name ∷ key ∷ flags ∷ exptime ∷ []) = none

abbrev pub result : Option Header → Option (Bool × Cmd)
result none = none
result (some h) = some (h.ret, h.cmd)

by_measured : Cmd → List (List ℕ × ℕ) → Option (Bool × Cmd)
by_measured cmd (name ∷ (key, n) ∷ (flags, _) ∷ (exptime, _) ∷ (datalen, _) ∷ rest) =
    let keylen = n % 2 ^ 32 in
    let numbers =
      is_some (safe_strtoul flags)
      && is_some (safe_strtoul exptime)
      && is_some (safe_strtoul datalen) in
    if ltb key_array_size keylen
    then none
    else some (
      numbers,
      record cmd {
        key = strncpy key keylen ++ drop keylen cmd.key;
        keylen = keylen;
        flags = out (safe_strtoul flags);
        exptime = out (safe_strtoul exptime);
        datalen = out (safe_strtoul datalen);
      },
    )
by_measured cmd [] = some (false, cmd)
by_measured cmd (name ∷ []) = some (false, cmd)
by_measured cmd (name ∷ key ∷ []) = none
by_measured cmd (name ∷ key ∷ flags ∷ []) = none
by_measured cmd (name ∷ key ∷ flags ∷ exptime ∷ []) = none

fill-measured :
    (command : List ℕ) (name key flags exptime datalen : Token) (rest : List (List ℕ × ℕ))
    (cmd : Cmd)
    → let m = measured command in
      result (fill command key flags exptime datalen cmd)
      ≡ by_measured cmd (m name ∷ m key ∷ m flags ∷ m exptime ∷ m datalen ∷ rest)
unfolding fill by_measured
fill-measured command name key flags exptime datalen rest cmd =
    elim (Bool-cases (ltb key_array_size (key.length % 2 ^ 32))) [
      | inl long ↦ rw long refl
      | inr fits ↦ rw fits refl
    ]

process_tokens-measured :
    (command : List ℕ) (tokens : List Token) (cmd : Cmd)
    → result (process_tokens command tokens cmd) ≡ by_measured cmd (map (measured command) tokens)
unfolding process_tokens by_measured
process_tokens-measured command [] cmd = refl
process_tokens-measured command (name ∷ []) cmd = refl
process_tokens-measured command (name ∷ key ∷ []) cmd = refl
process_tokens-measured command (name ∷ key ∷ flags ∷ []) cmd = refl
process_tokens-measured command (name ∷ key ∷ flags ∷ exptime ∷ []) cmd = refl
process_tokens-measured command (name ∷ key ∷ flags ∷ exptime ∷ datalen ∷ rest) cmd =
    fill-measured command name key flags exptime datalen (map (measured command) rest) cmd

by_words-counted :
    (cmd : Cmd) (ws : List (List ℕ)) → by_measured cmd (map counted ws) ≡ by_words cmd ws
unfolding by_words by_measured
by_words-counted cmd [] = refl
by_words-counted cmd (name ∷ []) = refl
by_words-counted cmd (name ∷ key ∷ []) = refl
by_words-counted cmd (name ∷ key ∷ flags ∷ []) = refl
by_words-counted cmd (name ∷ key ∷ flags ∷ exptime ∷ []) = refl
by_words-counted cmd (name ∷ key ∷ flags ∷ exptime ∷ datalen ∷ rest) = refl

-- For every set line without a NUL: with fewer than two words the header is refused and the command
-- left as it is; with two, three or four the call does not return; with more, the second word is
-- the key and its length, modulo 2 ^ 32, the key's length, which does not fit above 256, and the
-- next three are read as numbers, a number that is refused counting as 0 and refusing the header.
-- At most seven words are looked at.
pub process_set-words :
    (command : List ℕ) (cmd : Cmd)
    → NoNul command
    → result (process_set command cmd) ≡ by_words cmd (take 7 (words command))
unfolding process_set
process_set-words command cmd h =
    let t = tokenize_command command max_tokens in
    process_tokens-measured t.command t.tokens cmd
    ∙ ap (by_measured cmd) (tokenize_command-measured command 8 (omega arith) h)
    ∙ by_words-counted cmd (take 7 (words command))
