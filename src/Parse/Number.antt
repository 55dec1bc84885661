-- ===== src/Parse/Number.antt =====
-- aUtil.cpp: `safe_strtoul`, which reads the numbers of a request header. A string is the list of
-- its bytes without the NUL.
pub mod Digits
pub mod Wide
use acached.Prelude.{
  ℕ, ◌+◌, ◌-◌, ◌*◌, ◌%◌, ◌^◌, List, [], ◌∷◌, Bool, true, false, not, ◌&&◌, ◌||◌, Option, none, some,
  ◌==◌, ltb, leb, if◌then◌else◌,
}

-- `isspace` of the C locale
unfoldable pub isspace : ℕ → Bool
isspace c = (c == b' ') || (leb 9 c && leb c 13)

unfoldable pub isdigit : ℕ → Bool
isdigit c = leb b'0' c && leb c b'9'

-- What `strtoul` finds: the value, `errno == ERANGE`, `str == endptr`, and the string at `endptr`.
pub record Converted : Type 0 where
  pub value : ℕ
  pub erange : Bool
  pub unmoved : Bool
  pub endptr : List ℕ

unfoldable pub digits_loop : ℕ → List ℕ → ℕ × List ℕ
unfolding isdigit
digits_loop value [] = (value, [])
digits_loop value (c ∷ cs) =
    let rest = digits_loop (10 * value + (c - b'0')) cs in
    if isdigit c then rest else (value, c ∷ cs)

-- The value of the digits, with the sign, as an `unsigned long`; an overflow gives `ULONG_MAX`.
unfoldable pub convert : Bool → List ℕ → List ℕ → Converted
unfolding digits_loop isdigit
convert negative str [] = record { value = 0; erange = false; unmoved = true; endptr = str }
convert negative str (c ∷ cs) =
    let (value, rest) = digits_loop 0 (c ∷ cs) in
    if isdigit c
    then (if leb (2 ^ 64) value
        then record { value = 2 ^ 64 - 1; erange = true; unmoved = false; endptr = rest }
        else record {
          value = if negative then (2 ^ 64 - value) % 2 ^ 64 else value;
          erange = false;
          unmoved = false;
          endptr = rest;
        })
    else record { value = 0; erange = false; unmoved = true; endptr = str }

unfoldable pub skip_space : List ℕ → List ℕ
unfolding isspace
skip_space [] = []
skip_space (c ∷ cs) = let rest = skip_space cs in if isspace c then rest else c ∷ cs

unfoldable pub signed : List ℕ → List ℕ → Converted
unfolding convert
signed str [] = convert false str []
signed str (c ∷ cs) =
    if c == b'-'
    then convert true str cs
    else (if c == b'+' then convert false str cs else convert false str (c ∷ cs))

-- `strtoul(str, &endptr, 10)`
unfoldable pub strtoul : List ℕ → Converted
unfolding signed skip_space
strtoul str = signed str (skip_space str)

-- `strchr(str, c) != NULL`
unfoldable pub strchr : List ℕ → ℕ → Bool
strchr [] c = false
strchr (x ∷ xs) c = let rest = strchr xs c in if x == c then true else rest

unfoldable pub ends_number : List ℕ → Bool
unfolding isspace
ends_number [] = true
ends_number (c ∷ cs) = isspace c

-- `some` is the return value true with `*out`; `none` is false, with `*out` 0.
unfoldable pub safe_strtoul : List ℕ → Option ℕ
unfolding strtoul ends_number strchr
safe_strtoul str =
    let l = strtoul str in
    if l.erange || l.unmoved
    then none
    else (if ends_number l.endptr
        then (if leb (2 ^ 63) l.value && strchr str b'-' then none else some (l.value % 2 ^ 32))
        else none)
