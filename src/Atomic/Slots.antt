-- ===== src/Atomic/Slots.antt =====
-- What the callers rely on: concurrent calls, in whatever order they take effect, get slots of the
-- reply table that do not overlap.
use acached.Prelude.{ℕ, ◌+◌, ◌<◌, ◌≡◌, refl, List, [], ◌∷◌, arith}
use acached.Atomic.{u32_mod, atomic_incr2_get_add, atomic_incr_get_add}

-- A reservation of one entry (a reply line) or of two (a header and a value).
pub data Reserve : Type 0 where
  one two : Reserve

abbrev pub width : Reserve → ℕ
width one = 1
width two = 2

pub reserve : Reserve → ℕ → ℕ × ℕ
unfolding atomic_incr_get_add atomic_incr2_get_add
reserve one = atomic_incr_get_add
reserve two = atomic_incr2_get_add

-- The slots that a series of reservations returns, each with its width, and the final index.
pub reserve_all : List Reserve → ℕ → List (ℕ × ℕ) × ℕ
reserve_all [] var = ([], var)
reserve_all (r ∷ rs) var =
    let (slot, next) = reserve r var in
    let (slots, last) = reserve_all rs next in ((slot, width r) ∷ slots, last)

abbrev pub total_width : List Reserve → ℕ
total_width [] = 0
total_width (r ∷ rs) = width r + total_width rs

-- Each slot starts where the one before it ends, from `from` up to `to`.
abbrev pub Adjacent : ℕ → List (ℕ × ℕ) → ℕ → Type 0
Adjacent from [] to = from ≡ to
Adjacent from ((slot, w) ∷ slots) to = (slot ≡ from) × Adjacent (from + w) slots to

reserve_lem :
    (r : Reserve) (var : ℕ) → var + width r < u32_mod → reserve r var ≡ (var, var + width r)
unfolding reserve
reserve_lem one var h = ground arith
reserve_lem two var h = ground arith

-- If the index and the widths together stay below 2 ^ 32, the slots handed out tile the table from
-- the first index on: no two overlap, none is left out, and the index ends behind the last.
pub reserve_all-Adjacent :
    (rs : List Reserve) (var : ℕ)
    → var + total_width rs < u32_mod
    → Adjacent var (reserve_all rs var).0 (reserve_all rs var).1
unfolding reserve_all
reserve_all-Adjacent [] var h = refl
reserve_all-Adjacent (r ∷ rs) var h =
    rw (reserve_lem r var (omega arith))
      (refl, reserve_all-Adjacent rs (var + width r) (omega arith))
