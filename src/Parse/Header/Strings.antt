-- ===== src/Parse/Header/Strings.antt =====
-- The strings that the tokens point to, in the command whose spaces are overwritten.
use acached.Prelude.{
  ℕ, ◌+◌, ◌-◌, ◌<◌, ◌≡◌, refl, List, [], ◌∷◌, ◌++◌, true, false, none, some, ◌==◌, if◌then◌else◌,
  length, take, drop, arith, map, ap, ◌∙◌, length-append, drop-append_length, Bool-cases, ==_refl,
  inl, inr, subst,
}
use mathlib.Core.List.{append_assoc, append-nil}
use acached.Parse.Tokens.{Token, Scan, tokenize_loop, tokenize_command}
use acached.Parse.Tokens.Words.{
  words, words_from, take_nil, take_one, take_single, take_cons, differs,
}
use acached.Parse.Line.Ends.{contains}
use acached.Parse.Header.{c_string, string_at, strncpy}

pub strncpy_whole : (s : List ℕ) → strncpy s (length s) ≡ s
unfolding strncpy
strncpy_whole [] = refl
strncpy_whole (c ∷ s) = ap (◌∷◌ c) (strncpy_whole s)

-- No byte of the text is a NUL.
abbrev pub NoNul : List ℕ → Type 0
NoNul text = contains 0 text ≡ false

NoNul-head : (x : ℕ) (xs : List ℕ) → NoNul (x ∷ xs) → (x == 0) ≡ false
unfolding contains
NoNul-head x xs h = ground (arith, h)

NoNul-tail : (x : ℕ) (xs : List ℕ) → NoNul (x ∷ xs) → NoNul xs
unfolding contains
NoNul-tail x xs h = ground (arith, h)

NoNul-grown :
    (run : List ℕ) (x : ℕ) (xs : List ℕ) → NoNul run → NoNul (x ∷ xs) → NoNul (run ++ x ∷ [])
unfolding contains
NoNul-grown [] x xs h k = rw (NoNul-head x xs k) refl
NoNul-grown (r ∷ run) x xs h k =
    rw (NoNul-head r run h) (NoNul-grown run x xs (NoNul-tail r run h) k)

c_string-ended : (run rest : List ℕ) → NoNul run → c_string (run ++ 0 ∷ rest) ≡ some run
unfolding c_string
c_string-ended [] rest h = refl
c_string-ended (r ∷ run) rest h =
    rw (NoNul-head r run h, c_string-ended run rest (NoNul-tail r run h)) refl

c_string-endless : (run : List ℕ) → NoNul run → c_string run ≡ none
unfolding c_string
c_string-endless [] h = refl
c_string-endless (r ∷ run) h =
    rw (NoNul-head r run h, c_string-endless run (NoNul-tail r run h)) refl

drop_before :
    (before rest command : List ℕ) (s : ℕ)
    → before ++ rest ≡ command
    → length before ≡ s
    → drop s command ≡ rest
drop_before before rest command s c p =
    subst (λ zs. drop s zs ≡ rest) c
      (subst (λ i. drop i (before ++ rest) ≡ rest) p (drop-append_length before rest))

-- A run that is followed by an overwritten space, or ends the command.
data Ended : List ℕ → Type 0 where
  at_nul : (rest : List ℕ) → Ended (0 ∷ rest)
  at_end : Ended []

string_at_found :
    (command run : List ℕ) (s : ℕ)
    → c_string (drop s command) ≡ some run
    → string_at command s ≡ run
unfolding string_at
string_at_found command run s e = rw (e, string_at) refl

string_at_whole :
    (command : List ℕ) (s : ℕ)
    → c_string (drop s command) ≡ none
    → string_at command s ≡ drop s command
unfolding string_at
string_at_whole command s e = rw (e, string_at) refl

string_at-run :
    (before run rest command : List ℕ) (s : ℕ)
    → Ended rest
    → before ++ (run ++ rest) ≡ command
    → length before ≡ s
    → NoNul run
    → string_at command s ≡ run
unfolding string_at
string_at-run before run _ command s (at_nul rest) c p h =
    string_at_found command run s
      (rw (drop_before before (run ++ 0 ∷ rest) command s c p) (c_string-ended run rest h))
string_at-run before run _ command s at_end c p h =
    let d = drop_before before (run ++ []) command s c p ∙ append-nil run in
    string_at_whole command s (rw d (c_string-endless run h)) ∙ d

module _ (command : List ℕ) where
  -- What a token gives: its string and its length.
  abbrev pub measured : Token → List ℕ × ℕ
  measured t = (string_at command t.value, t.length)

abbrev pub counted : List ℕ → List ℕ × ℕ
counted w = (w, length w)

abbrev last_token : Scan → List Token
last_token scan =
    if scan.s == scan.e then [] else record { value = scan.s; length = scan.e - scan.s } ∷ []

ended_before :
    (before run rest command : List ℕ) (x : ℕ)
    → before ++ (run ++ x ∷ rest) ≡ command
    → (before ++ (run ++ x ∷ [])) ++ rest ≡ command
ended_before before run rest command x c =
    append_assoc before (run ++ x ∷ []) rest ∙ ap (◌++◌ before) (append_assoc run (x ∷ []) rest) ∙ c

length_before :
    (before run : List ℕ) (x s e : ℕ)
    → length before ≡ s
    → s + length run ≡ e
    → length (before ++ (run ++ x ∷ [])) ≡ e + 1
length_before before run x s e p q =
    omega (arith, length-append before (run ++ x ∷ []), length-append run (x ∷ []))

measure :
    (command before run rest : List ℕ) (s e : ℕ)
    → Ended rest
    → before ++ (run ++ rest) ≡ command
    → length before ≡ s
    → s + length run ≡ e
    → NoNul run
    → measured command (record { value = s; length = e - s }) ≡ counted run
measure command before run rest s e k c p q h =
    let n : e - s ≡ length run = omega arith in
    rw (string_at-run before run rest command s k c p h, n) refl

module _ (command : List ℕ) (max : ℕ) where
  abbrev readings : Scan → List (List ℕ × ℕ)
  readings scan = map (measured command) (scan.tokens ++ last_token scan)

  tokenize_loop-measured :
      (ntokens s e : ℕ) (before run cs : List ℕ)
      → before ++ (run ++ (tokenize_loop max ntokens s e cs).command) ≡ command
      → length before ≡ s
      → s + length run ≡ e
      → ntokens + 1 < max
      → NoNul run
      → NoNul cs
      → readings (tokenize_loop max ntokens s e cs)
        ≡ map counted (take (max - 1 - ntokens) (words_from run cs))
  unfolding tokenize_loop words_from contains
  tokenize_loop-measured ntokens s e before [] [] c p q lt h k =
      let eq : (s == e) ≡ true = ground arith in rw (eq, take_nil (max - 1 - ntokens)) refl
  tokenize_loop-measured ntokens s e before (r ∷ run) [] c p q lt h k =
      let ne : (s == e) ≡ false = differs s e (omega arith) in
      rw (ne, take_single (max - 1 - ntokens) (r ∷ run) (omega arith))
        (ap (λ t. t ∷ []) (measure command before (r ∷ run) [] s e at_end c p q h))
  tokenize_loop-measured ntokens s e before [] (x ∷ cs) c p q lt h k =
      let eq : (s == e) ≡ true = ground arith in
      elim (Bool-cases (x == b' ')) [
        | inl sp ↦
            rw (sp, eq)
              (tokenize_loop-measured ntokens (e + 1) (e + 1) (before ++ x ∷ []) [] cs
                (ended_before before [] _ command x (rw (sp, eq, tokenize_loop) at c))
                (length_before before [] x s e p q) (omega arith) lt refl (NoNul-tail x cs k))
        | inr other ↦ rw other (
            tokenize_loop-measured ntokens s (e + 1) before (x ∷ []) cs
              (rw (other, tokenize_loop) at c) p (omega arith) lt (NoNul-grown [] x cs refl k)
              (NoNul-tail x cs k))
      ]
  tokenize_loop-measured ntokens s e before (r ∷ run) (x ∷ cs) c p q lt h k =
      let ne : (s == e) ≡ false = differs s e (omega arith) in
      elim (Bool-cases (x == b' ')) [
        | inl sp ↦ elim (Bool-cases (ntokens + 1 == max - 1)) [
          | inl full ↦
              rw
                (
                  sp,
                  ne,
                  full,
                  ==_refl (e + 1),
                  take_one (max - 1 - ntokens) (r ∷ run) (words_from [] cs) (ground arith),
                )
                (ap (λ t. t ∷ [])
                  (measure command before (r ∷ run) (0 ∷ cs) s e (at_nul cs)
                    (rw (sp, ne, full, tokenize_loop) at c) p q h))
          | inr more ↦
              let left = max - 1 - (ntokens + 1) in
              let c' = rw (sp, ne, more, tokenize_loop) at c in
              rw
                (
                  sp,
                  ne,
                  more,
                  take_cons (max - 1 - ntokens) left (r ∷ run) (words_from [] cs) (ground arith),
                  measure command before (r ∷ run) _ s e (at_nul _) c' p q h,
                )
                (ap (◌∷◌ (counted (r ∷ run))) (
                  tokenize_loop-measured (ntokens + 1) (e + 1) (e + 1)
                    (before ++ ((r ∷ run) ++ 0 ∷ [])) [] cs
                    (ended_before before (r ∷ run) _ command 0 c')
                    (length_before before (r ∷ run) 0 s e p q) (omega arith) (ground arith) refl
                    (NoNul-tail x cs k)))
        ]
        | inr other ↦ rw other (
            tokenize_loop-measured ntokens s (e + 1) before ((r ∷ run) ++ x ∷ []) cs
              (ap (◌++◌ before) (append_assoc (r ∷ run) (x ∷ []) _)
                ∙ rw (other, tokenize_loop) at c)
              p (omega (arith, length-append (r ∷ run) (x ∷ []))) lt
              (NoNul-grown (r ∷ run) x cs h k) (NoNul-tail x cs k))
      ]

-- For every command without a NUL, the strings and the lengths of the tokens are those of its first
-- seven words, in order, in the command that the call leaves.
pub tokenize_command-measured :
    (command : List ℕ) (max : ℕ)
    → 1 < max
    → NoNul command
    → map (measured (tokenize_command command max).command) (tokenize_command command max).tokens
      ≡ map counted (take (max - 1) (words command))
unfolding tokenize_command words contains
tokenize_command-measured command max lt h =
    let left : max - 1 - 0 ≡ max - 1 = omega arith in
    subst
      (λ n.
        map (measured (tokenize_command command max).command) (tokenize_command command max).tokens
        ≡ map counted (take n (words command)))
      left
      (tokenize_loop-measured (tokenize_command command max).command max 0 0 0 [] [] command refl
        refl refl lt refl h)
