-- ===== src/Parse/Number/Digits.antt =====
-- Decimal numerals.
use acached.Prelude.{
  ℕ, ◌+◌, ◌-◌, ◌*◌, ◌%◌, ◌^◌, ◌<◌, ◌≡◌, refl, List, [], ◌∷◌, Bool, true, false, none, some, ◌==◌,
  leb, if◌then◌else◌, ◌&&◌, arith, Bool-cases, inl, inr,
}
use acached.Parse.Number.{
  isspace, isdigit, digits_loop, convert, skip_space, signed, strtoul, strchr, ends_number,
  safe_strtoul,
}

abbrev pub text : List ℕ → List ℕ
text [] = []
text (d ∷ ds) = (b'0' + d) ∷ text ds

abbrev pub AreDigits : List ℕ → Type 0
AreDigits [] = Unit {0}
AreDigits (d ∷ ds) = (d < 10) × AreDigits ds

-- The number that the digits stand for behind `v`.
abbrev pub value_from : ℕ → List ℕ → ℕ
value_from v [] = v
value_from v (d ∷ ds) = value_from (10 * v + d) ds

pub digits_loop-text :
    (v : ℕ) (ds : List ℕ) → AreDigits ds → digits_loop v (text ds) ≡ (value_from v ds, [])
unfolding digits_loop isdigit
digits_loop-text v [] h = refl
digits_loop-text v (d ∷ ds) (lt, h) =
    let digit : isdigit (b'0' + d) ≡ true = ground arith in
    let back : (b'0' + d) - b'0' ≡ d = omega arith in
    rw (digit, back) (digits_loop-text (10 * v + d) ds h)

pub isdigit-digit : (d : ℕ) → d < 10 → isdigit (b'0' + d) ≡ true
unfolding isdigit
isdigit-digit d lt = ground arith

pub isspace-digit : (d : ℕ) → d < 10 → isspace (b'0' + d) ≡ false
unfolding isspace
isspace-digit d lt = ground arith

no_sign : (ds : List ℕ) → AreDigits ds → strchr (text ds) b'-' ≡ false
unfolding strchr
no_sign [] h = refl
no_sign (d ∷ ds) (lt, h) = ground (arith, no_sign ds h)

and_false : (b : Bool) → (b && false) ≡ false
and_false true = refl
and_false false = refl

module _ (d : ℕ) (ds : List ℕ) (lt : d < 10) (h : AreDigits ds) where
  strtoul-text : strtoul (text (d ∷ ds)) ≡ (
      if leb (2 ^ 64) (value_from 0 (d ∷ ds))
      then record { value = 2 ^ 64 - 1; erange = true; unmoved = false; endptr = [] }
      else record { value = value_from 0 (d ∷ ds); erange = false; unmoved = false; endptr = [] })
  unfolding strtoul signed convert skip_space
  strtoul-text =
      let visible : isspace (b'0' + d) ≡ false = isspace-digit d lt in
      let digit : isdigit (b'0' + d) ≡ true = isdigit-digit d lt in
      let minus : (b'0' + d == b'-') ≡ false = ground arith in
      let plus : (b'0' + d == b'+') ≡ false = ground arith in
      let back : (b'0' + d) - b'0' ≡ d = omega arith in
      rw (visible, minus, plus, digit, back, digits_loop-text (10 * 0 + d) ds h) refl

-- A string of one digit or more is read with its value modulo 2 ^ 32 if the value is below 2 ^ 64,
-- and refused otherwise.
pub safe_strtoul-text :
    (d : ℕ) (ds : List ℕ)
    → AreDigits (d ∷ ds)
    → safe_strtoul (text (d ∷ ds)) ≡ (
        if leb (2 ^ 64) (value_from 0 (d ∷ ds))
        then none
        else some (value_from 0 (d ∷ ds) % 2 ^ 32))
unfolding safe_strtoul ends_number
safe_strtoul-text d ds (lt, h) = elim (Bool-cases (leb (2 ^ 64) (value_from 0 (d ∷ ds)))) [
  | inl y ↦ rw (strtoul-text d ds lt h, y) refl
  | inr n ↦
      rw
        (
          strtoul-text d ds lt h,
          n,
          no_sign (d ∷ ds) (lt, h),
          and_false (leb (2 ^ 63) (value_from 0 (d ∷ ds))),
        )
        refl
]
