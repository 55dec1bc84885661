-- ===== src/Parse/Command/Keywords.antt =====
-- Which requests are recognized.
use acached.Prelude.{
  ℕ, suc, ◌+◌, ◌-◌, ◌<◌, ◌≡◌, refl, ap, List, [], ◌∷◌, ◌++◌, true, false, some, ltb, length, arith,
  lt→ltb,
}
use acached.Table.Memory.{same_prefix}
use acached.Parse.Command.{
  gets, set, quit, version, isblank, skip_blank, Selected, branch, selected, select,
  set_command_type,
}

pub data Keyword : Type 0 where
  get_keyword set_keyword quit_keyword version_keyword : Keyword

abbrev pub spelling : Keyword → List ℕ
spelling get_keyword = b'g' ∷ b'e' ∷ b't' ∷ []
spelling set_keyword = b's' ∷ b'e' ∷ b't' ∷ []
spelling quit_keyword = b'q' ∷ b'u' ∷ b'i' ∷ b't' ∷ []
spelling version_keyword = b'v' ∷ b'e' ∷ b'r' ∷ b's' ∷ b'i' ∷ b'o' ∷ b'n' ∷ []

-- What is returned and stored.
abbrev pub meaning : Keyword → Selected
meaning get_keyword = selected gets gets
meaning set_keyword = selected set set
meaning quit_keyword = selected quit quit
meaning version_keyword = selected quit version

abbrev pub AreBlank : List ℕ → Type 0
AreBlank [] = Unit {0}
AreBlank (c ∷ cs) = (isblank c ≡ true) × AreBlank cs

skip_blank-append :
    (blanks memory : List ℕ) (c len : ℕ)
    → AreBlank blanks
    → isblank c ≡ false
    → skip_blank (blanks ++ c ∷ memory) (length blanks + len) ≡ some (c ∷ memory, len)
unfolding skip_blank
skip_blank-append [] memory c len h ne = rw ne (ap (λ n. some (c ∷ memory, n)) (omega arith))
skip_blank-append (b ∷ blanks) memory c len (blank, h) ne =
    let more : ltb 0 (suc (length blanks) + len) ≡ true =
      lt→ltb 0 (suc (length blanks) + len) (omega arith) in
    let less : suc (length blanks) + len - 1 ≡ length blanks + len = omega arith in
    rw (blank, more, less) (skip_blank-append blanks memory c len h ne)

select-spelling : (k : Keyword) (rest : List ℕ) → select (spelling k ++ rest) ≡ some (meaning k)
unfolding select branch same_prefix
select-spelling get_keyword rest = refl
select-spelling set_keyword rest = refl
select-spelling quit_keyword rest = refl
select-spelling version_keyword rest = refl

behind_blanks :
    (blanks memory : List ℕ) (c len : ℕ) (k : Keyword)
    → AreBlank blanks
    → 5 < len
    → isblank c ≡ false
    → select (c ∷ memory) ≡ some (meaning k)
    → set_command_type (length blanks + len) (blanks ++ c ∷ memory) ≡ some (meaning k)
unfolding set_command_type
behind_blanks blanks memory c len k h lt ne e =
    rw (set_command_type, skip_blank-append blanks memory c len h ne, lt→ltb 5 len lt) e

-- A line that begins with one of the keywords behind any number of spaces and NULs, and has more
-- than five bytes from the keyword on, is recognized as that command. `version` is stored as such
-- and returned as `quit`.
pub set_command_type-spelling :
    (k : Keyword) (blanks rest : List ℕ) (len : ℕ)
    → AreBlank blanks
    → 5 < len
    → set_command_type (length blanks + len) (blanks ++ (spelling k ++ rest)) ≡ some (meaning k)
unfolding isblank
set_command_type-spelling get_keyword blanks rest len h lt =
    behind_blanks blanks _ b'g' len get_keyword h lt refl (select-spelling get_keyword rest)
set_command_type-spelling set_keyword blanks rest len h lt =
    behind_blanks blanks _ b's' len set_keyword h lt refl (select-spelling set_keyword rest)
set_command_type-spelling quit_keyword blanks rest len h lt =
    behind_blanks blanks _ b'q' len quit_keyword h lt refl (select-spelling quit_keyword rest)
set_command_type-spelling version_keyword blanks rest len h lt =
    behind_blanks blanks _ b'v' len version_keyword h lt refl (select-spelling version_keyword rest)
