-- ===== src/Parse/Number/Wide.antt =====
-- aUtil.cpp: `safe_strtoull`, `safe_strtoll` and `safe_strtol`. A signed value is its bit pattern;
-- `long` and `long long` have 64 bits.
use mathlib.Core.Option
use acached.Prelude.{
  ℕ, ◌+◌, ◌-◌, ◌*◌, ◌%◌, ◌^◌, ◌<◌, ◌≡◌, refl, ◌∙◌, List, [], ◌∷◌, Bool, true, false, ◌&&◌, ◌||◌,
  Option, none, some, ◌==◌, leb, if◌then◌else◌, arith, Bool-cases, inl, inr,
}
use acached.Parse.Number.{
  isspace, isdigit, Converted, digits_loop, skip_space, strtoul, strchr, ends_number, safe_strtoul,
}
use acached.Parse.Number.Digits.{
  text, AreDigits, value_from, digits_loop-text, isdigit-digit, isspace-digit,
}

-- `strtoull` is `strtoul` where both types have 64 bits.
unfoldable pub safe_strtoull : List ℕ → Option ℕ
safe_strtoull str =
    let l = strtoul str in
    if l.erange || l.unmoved
    then none
    else (if ends_number l.endptr
        then (if leb (2 ^ 63) l.value && strchr str b'-' then none else some l.value)
        else none)

-- The value of the digits, with the sign; beyond the range it is the nearest one.
unfoldable pub convert_signed : Bool → List ℕ → List ℕ → Converted
unfolding digits_loop isdigit
convert_signed negative str [] = record { value = 0; erange = false; unmoved = true; endptr = str }
convert_signed negative str (c ∷ cs) =
    let (value, rest) = digits_loop 0 (c ∷ cs) in
    let limit = if negative then 2 ^ 63 + 1 else 2 ^ 63 in
    if isdigit c
    then (if leb limit value
        then record {
          value = if negative then 2 ^ 63 else 2 ^ 63 - 1;
          erange = true;
          unmoved = false;
          endptr = rest;
        }
        else record {
          value = if negative then (2 ^ 64 - value) % 2 ^ 64 else value;
          erange = false;
          unmoved = false;
          endptr = rest;
        })
    else record { value = 0; erange = false; unmoved = true; endptr = str }

unfoldable pub with_sign : List ℕ → List ℕ → Converted
unfolding convert_signed
with_sign str [] = convert_signed false str []
with_sign str (c ∷ cs) =
    if c == b'-'
    then convert_signed true str cs
    else (if c == b'+' then convert_signed false str cs else convert_signed false str (c ∷ cs))

-- `strtoll(str, &endptr, 10)`, and `strtol`
unfoldable pub strtoll : List ℕ → Converted
unfolding with_sign skip_space
strtoll str = with_sign str (skip_space str)

unfoldable pub safe_strtoll : List ℕ → Option ℕ
safe_strtoll str =
    let l = strtoll str in
    if l.erange || l.unmoved then none else (if ends_number l.endptr then some l.value else none)

-- `*out` has 32 bits.
unfoldable pub safe_strtol : List ℕ → Option ℕ
safe_strtol str =
    let l = strtoll str in
    if l.erange || l.unmoved
    then none
    else (if ends_number l.endptr then some (l.value % 2 ^ 32) else none)

halved :
    (bad ends refused : Bool) (value : ℕ)
    → (if bad
        then none
        else (if ends then (if refused then none else some (value % 2 ^ 32)) else none))
      ≡ Option.map
          (λ v. v % 2 ^ 32)
          (if bad then none else (if ends then (if refused then none else some value) else none))
halved true ends refused value = refl
halved false true true value = refl
halved false true false value = refl
halved false false refused value = refl

-- The parsers with 32 bits take exactly the strings that those with 64 bits take, and give the low
-- half of their value.
pub narrow_parsers :
    (str : List ℕ)
    → (safe_strtoul str ≡ Option.map (λ v. v % 2 ^ 32) (safe_strtoull str))
      × (safe_strtol str ≡ Option.map (λ v. v % 2 ^ 32) (safe_strtoll str))
unfolding safe_strtoul safe_strtoull safe_strtol safe_strtoll
narrow_parsers str =
    let u = strtoul str in
    let l = strtoll str in
    (
      halved (u.erange || u.unmoved) (ends_number u.endptr)
          (leb (2 ^ 63) u.value && strchr str b'-') u.value,
      halved (l.erange || l.unmoved) (ends_number l.endptr) false l.value,
    )

module _ (d : ℕ) (ds : List ℕ) (lt : d < 10) (h : AreDigits ds) where
  convert_signed-text :
      (negative : Bool) (str : List ℕ)
      → convert_signed negative str (text (d ∷ ds)) ≡ (
          if leb (if negative then 2 ^ 63 + 1 else 2 ^ 63) (value_from 0 (d ∷ ds))
          then record {
            value = if negative then 2 ^ 63 else 2 ^ 63 - 1;
            erange = true;
            unmoved = false;
            endptr = [];
          }
          else record {
            value =
                if negative
                then (2 ^ 64 - value_from 0 (d ∷ ds)) % 2 ^ 64
                else value_from 0 (d ∷ ds);
            erange = false;
            unmoved = false;
            endptr = [];
          })
  unfolding convert_signed
  convert_signed-text negative str =
      let digit : isdigit (b'0' + d) ≡ true = isdigit-digit d lt in
      let back : (b'0' + d) - b'0' ≡ d = omega arith in
      rw (digit, back, digits_loop-text (10 * 0 + d) ds h) refl

  unsigned-text : strtoll (text (d ∷ ds)) ≡ convert_signed false (text (d ∷ ds)) (text (d ∷ ds))
  unfolding strtoll with_sign skip_space
  unsigned-text =
      let visible : isspace (b'0' + d) ≡ false = isspace-digit d lt in
      let minus : (b'0' + d == b'-') ≡ false = ground arith in
      let plus : (b'0' + d == b'+') ≡ false = ground arith in rw (visible, minus, plus) refl

  signed-text :
      strtoll (b'-' ∷ text (d ∷ ds)) ≡ convert_signed true (b'-' ∷ text (d ∷ ds)) (text (d ∷ ds))
  unfolding strtoll with_sign skip_space isspace
  signed-text = refl

-- A string of one digit or more, or of a minus sign and these, is read by `safe_strtoll` with the
-- 64 bits of its value if the value lies from -2 ^ 63 to 2 ^ 63 - 1, and refused otherwise.
pub safe_strtoll-text :
    (d : ℕ) (ds : List ℕ)
    → AreDigits (d ∷ ds)
    → (safe_strtoll (text (d ∷ ds))
        ≡ (if leb (2 ^ 63) (value_from 0 (d ∷ ds)) then none else some (value_from 0 (d ∷ ds))))
      × (safe_strtoll (b'-' ∷ text (d ∷ ds)) ≡ (
          if leb (2 ^ 63 + 1) (value_from 0 (d ∷ ds))
          then none
          else some ((2 ^ 64 - value_from 0 (d ∷ ds)) % 2 ^ 64)))
unfolding safe_strtoll ends_number
safe_strtoll-text d ds (lt, h) =
    let v = value_from 0 (d ∷ ds) in
    let positive = unsigned-text d ds lt h ∙ convert_signed-text d ds lt h false (text (d ∷ ds)) in
    let negative =
      signed-text d ds lt h ∙ convert_signed-text d ds lt h true (b'-' ∷ text (d ∷ ds)) in
    (
      elim (Bool-cases (leb (2 ^ 63) v)) [
        | inl y ↦ rw (positive, y) refl
        | inr n ↦ rw (positive, n) refl
      ],
      elim (Bool-cases (leb (2 ^ 63 + 1) v)) [
        | inl y ↦ rw (negative, y) refl
        | inr n ↦ rw (negative, n) refl
      ],
    )
