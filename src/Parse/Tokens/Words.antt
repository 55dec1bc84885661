-- ===== src/Parse/Tokens/Words.antt =====
-- The tokens are the words of the command.
use acached.Prelude.{
  ℕ, zero, suc, ◌+◌, ◌-◌, ◌<◌, ◌≡◌, refl, List, [], ◌∷◌, ◌++◌, true, false, ◌==◌, if◌then◌else◌,
  length, take, drop, arith, map, ap, sym, ◌∙◌, length-append, take-append_length,
  drop-append_length, Bool-cases, ==_refl, inl, inr, subst,
}
use mathlib.Core.List.{append_assoc}
use acached.Parse.Tokens.{Scan, tokenize_loop, tokenize_command, text_of}

-- The maximal runs of bytes that are no space; `run` are the bytes of the one that is being read.
abbrev flush : List ℕ → List (List ℕ)
flush [] = []
flush (c ∷ run) = (c ∷ run) ∷ []

unfoldable pub words_from : List ℕ → List ℕ → List (List ℕ)
words_from run [] = flush run
words_from run (c ∷ cs) =
    let after_space = words_from [] cs in
    let after_byte = words_from (run ++ c ∷ []) cs in
    if c == b' ' then flush run ++ after_space else after_byte

unfoldable pub words : List ℕ → List (List ℕ)
words = words_from []

slice :
    (before run rest command : List ℕ) (s e : ℕ)
    → before ++ (run ++ rest) ≡ command
    → length before ≡ s
    → s + length run ≡ e
    → take (e - s) (drop s command) ≡ run
slice before run rest command s e c p q =
    let n : length run ≡ e - s = omega arith in
    subst (λ zs. take (e - s) (drop s zs) ≡ run) c
      (subst (λ i. take (e - s) (drop i (before ++ (run ++ rest))) ≡ run) p
        (subst (λ k. take k (drop (length before) (before ++ (run ++ rest))) ≡ run) n
          (ap (take (length run)) (drop-append_length before (run ++ rest))
            ∙ take-append_length run rest)))

grown :
    (before run : List ℕ) (x : ℕ) (cs command : List ℕ)
    → before ++ (run ++ x ∷ cs) ≡ command
    → before ++ ((run ++ x ∷ []) ++ cs) ≡ command
grown before run x cs command c = ap (◌++◌ before) (append_assoc run (x ∷ []) cs) ∙ c

length-grown :
    (before run : List ℕ) (x s e : ℕ)
    → length before ≡ s
    → s + length run ≡ e
    → length (before ++ (run ++ x ∷ [])) ≡ e + 1
length-grown before run x s e p q =
    omega (arith, length-append before (run ++ x ∷ []), length-append run (x ∷ []))

pub take_nil : (n : ℕ) → take {A = List ℕ} n [] ≡ []
take_nil zero = refl
take_nil (suc n) = refl

pub take_one : (n : ℕ) (x : List ℕ) (xs : List (List ℕ)) → n ≡ 1 → take n (x ∷ xs) ≡ x ∷ []
take_one n x xs e = subst (λ k. take k (x ∷ xs) ≡ x ∷ []) (sym e) refl

pub take_single : (n : ℕ) (x : List ℕ) → 0 < n → take n (x ∷ []) ≡ x ∷ []
take_single zero x h = absurd (omega arith)
take_single (suc n) x h = ap (◌∷◌ x) (take_nil n)

pub take_cons :
    (n m : ℕ) (x : List ℕ) (xs : List (List ℕ)) → n ≡ suc m → take n (x ∷ xs) ≡ x ∷ take m xs
take_cons n m x xs e = subst (λ k. take k (x ∷ xs) ≡ x ∷ take m xs) (sym e) refl

pub differs : (s e : ℕ) → s < e → (s == e) ≡ false
differs s e h = ground arith

module _ (command : List ℕ) (max : ℕ) where
  -- The tokens of a scan, with the last one.
  abbrev texts : Scan → List (List ℕ)
  texts scan = map (text_of command) (
      scan.tokens
      ++ (if scan.s == scan.e
          then []
          else record { value = scan.s; length = scan.e - scan.s } ∷ []))

  tokenize_loop-words :
      (ntokens s e : ℕ) (before run cs : List ℕ)
      → before ++ (run ++ cs) ≡ command
      → length before ≡ s
      → s + length run ≡ e
      → ntokens + 1 < max
      → texts (tokenize_loop max ntokens s e cs) ≡ take (max - 1 - ntokens) (words_from run cs)
  unfolding tokenize_loop words_from
  tokenize_loop-words ntokens s e before [] [] c p q lt =
      let eq : (s == e) ≡ true = ground arith in rw eq (sym (take_nil (max - 1 - ntokens)))
  tokenize_loop-words ntokens s e before (r ∷ run) [] c p q lt =
      let ne : (s == e) ≡ false = differs s e (omega arith) in
      rw (ne, slice before (r ∷ run) [] command s e c p q)
        (sym (take_single (max - 1 - ntokens) (r ∷ run) (omega arith)))
  tokenize_loop-words ntokens s e before [] (x ∷ cs) c p q lt =
      let eq : (s == e) ≡ true = ground arith in
      elim (Bool-cases (x == b' ')) [
        | inl sp ↦
            rw (sp, eq)
              (tokenize_loop-words ntokens (e + 1) (e + 1) (before ++ x ∷ []) [] cs
                (append_assoc before (x ∷ []) cs ∙ c) (length-append before (x ∷ []) ∙ omega arith)
                (omega arith) lt)
        | inr other ↦
            rw other (tokenize_loop-words ntokens s (e + 1) before (x ∷ []) cs c p (omega arith) lt)
      ]
  tokenize_loop-words ntokens s e before (r ∷ run) (x ∷ cs) c p q lt =
      let ne : (s == e) ≡ false = differs s e (omega arith) in
      let text = slice before (r ∷ run) (x ∷ cs) command s e c p q in
      elim (Bool-cases (x == b' ')) [
        | inl sp ↦ elim (Bool-cases (ntokens + 1 == max - 1)) [
          | inl full ↦
              rw (sp, ne, full, ==_refl (e + 1), text)
                (sym (take_one (max - 1 - ntokens) (r ∷ run) (words_from [] cs) (ground arith)))
          | inr more ↦
              let left = max - 1 - (ntokens + 1) in
              rw (sp, ne, more, text)
                (ap (◌∷◌ (r ∷ run)) (
                    tokenize_loop-words (ntokens + 1) (e + 1) (e + 1)
                      (before ++ ((r ∷ run) ++ x ∷ [])) [] cs
                      (append_assoc before ((r ∷ run) ++ x ∷ []) cs
                        ∙ grown before (r ∷ run) x cs command c)
                      (length-grown before (r ∷ run) x s e p q) (omega arith) (ground arith))
                  ∙ sym (
                      take_cons (max - 1 - ntokens) left (r ∷ run) (words_from [] cs)
                        (ground arith)))
        ]
        | inr other ↦ rw other (
            tokenize_loop-words ntokens s (e + 1) before ((r ∷ run) ++ x ∷ []) cs
              (grown before (r ∷ run) x cs command c) p
              (omega (arith, length-append (r ∷ run) (x ∷ []))) lt)
      ]

-- For every command and every bound above one, the bytes of the tokens are the first `max - 1`
-- words of the command, in order, a word being a maximal run of bytes other than a space.
pub tokenize_command-words :
    (command : List ℕ) (max : ℕ)
    → 1 < max
    → map (text_of command) (tokenize_command command max).tokens ≡ take (max - 1) (words command)
unfolding tokenize_command words
tokenize_command-words command max lt =
    let left : max - 1 - 0 ≡ max - 1 = omega arith in
    subst
      (λ n. map (text_of command) (tokenize_command command max).tokens ≡ take n (words command))
      left (tokenize_loop-words command max 0 0 0 [] [] command refl refl refl lt)
