-- ===== src/Tests/Parse.antt =====
-- A request line of two words, and what the search for its end makes of it.
use acached.Prelude.{ℕ, ◌≡◌, refl, List, [], ◌∷◌, none, some, map, arith}
use acached.Parse.Tokens.{tokenize_command, text_of}
use acached.Parse.Tokens.Words.{tokenize_command-words, words, words_from}
use acached.Parse.Number.{
  safe_strtoul, strtoul, signed, convert, digits_loop, isdigit, isspace, skip_space, ends_number,
  strchr,
}
use acached.Parse.Number.Digits.{text, safe_strtoul-text}
use acached.Parse.Number.Wide.{safe_strtoll, strtoll, with_sign, convert_signed}
use acached.Parse.Command.{set_command_type, isblank, skip_blank, failed}
use acached.Parse.Line.{scan_line, is_buffer_complete}
use acached.Parse.Line.Ends.{EndsAt, is_buffer_complete-EndsAt}

abbrev get_k : List ℕ
get_k = b'g' ∷ b' ' ∷ b' ' ∷ b'k' ∷ []

tokenize_command-words_example :
    map (text_of get_k) (tokenize_command get_k 8).tokens ≡ (b'g' ∷ []) ∷ (b'k' ∷ []) ∷ []
unfolding words words_from
tokenize_command-words_example = tokenize_command-words get_k 8 (omega arith)

is_buffer_complete-EndsAt_example :
    EndsAt 0 (b'g' ∷ b'\r' ∷ b'\n' ∷ []) record { found = 3; memory = b'g' ∷ 0 ∷ 0 ∷ [] }
unfolding is_buffer_complete scan_line
is_buffer_complete-EndsAt_example =
    is_buffer_complete-EndsAt 3 (b'g' ∷ b'\r' ∷ b'\n' ∷ [])
      record { found = 3; memory = b'g' ∷ 0 ∷ 0 ∷ [] } (omega arith) (omega arith) refl

safe_strtoul-text_example : safe_strtoul (b'4' ∷ b'2' ∷ []) ≡ some 42
safe_strtoul-text_example = safe_strtoul-text 4 (2 ∷ []) (omega arith, (omega arith, tt))

-- A negative number that wraps around above 2 ^ 63 is refused, and so is a word.
negative : safe_strtoul (b'-' ∷ b'1' ∷ []) ≡ none
unfolding safe_strtoul strtoul signed convert digits_loop isdigit isspace skip_space ends_number
    strchr
negative = refl

negative_wrapped : (strtoul (b'-' ∷ b'1' ∷ b' ' ∷ [])).value ≡ 18446744073709551615
unfolding strtoul signed convert digits_loop isdigit isspace skip_space
negative_wrapped = refl

no_number : safe_strtoul (b'k' ∷ []) ≡ none
unfolding safe_strtoul strtoul signed convert digits_loop isdigit isspace skip_space ends_number
    strchr
no_number = refl

-- A line of five bytes is refused.
too_short : set_command_type 5 (b'q' ∷ b'u' ∷ b'i' ∷ b't' ∷ b'\r' ∷ []) ≡ some failed
unfolding set_command_type skip_blank isblank
too_short = refl

-- The least number of 64 bits is read, and the next one below is not.
least :
    safe_strtoll
      (b'-' ∷ text (9 ∷ 2 ∷ 2 ∷ 3 ∷ 3 ∷ 7 ∷ 2 ∷ 0 ∷ 3 ∷ 6 ∷ 8 ∷ 5 ∷ 4 ∷ 7 ∷ 7 ∷ 5 ∷ 8 ∷ 0 ∷ 8 ∷ []))
    ≡ some 9223372036854775808
unfolding safe_strtoll strtoll with_sign convert_signed digits_loop isdigit isspace skip_space
    ends_number
least = refl

too_small :
    safe_strtoll
      (b'-' ∷ text (9 ∷ 2 ∷ 2 ∷ 3 ∷ 3 ∷ 7 ∷ 2 ∷ 0 ∷ 3 ∷ 6 ∷ 8 ∷ 5 ∷ 4 ∷ 7 ∷ 7 ∷ 5 ∷ 8 ∷ 0 ∷ 9 ∷ []))
    ≡ none
unfolding safe_strtoll strtoll with_sign convert_signed digits_loop isdigit isspace skip_space
    ends_number
too_small = refl
