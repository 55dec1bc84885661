-- ===== src/Atomic.antt =====
-- platform.cpp: the atomic operations on a `volatile uint32_t`. Each takes the contents of the
-- variable and gives what the call returns and the new contents.
pub mod Slots
use acached.Prelude.{ℕ, ◌+◌, ◌-◌, ◌%◌, ◌^◌, ◌==◌, if◌then◌else◌}

abbrev pub u32_mod : ℕ
u32_mod = 2 ^ 32

-- `__sync_val_compare_and_swap`
unfoldable pub compare_and_swap : ℕ → ℕ → ℕ → ℕ × ℕ
compare_and_swap var old new = (var, if var == old then new else var)

unfoldable pub atomic_is_set : ℕ → ℕ × ℕ
unfolding compare_and_swap
atomic_is_set var = compare_and_swap var 1 1

unfoldable pub atomic_set : ℕ → ℕ × ℕ
unfolding compare_and_swap
atomic_set var = compare_and_swap var 0 1

unfoldable pub atomic_reset : ℕ → ℕ × ℕ
unfolding compare_and_swap
atomic_reset var = compare_and_swap var 1 0

unfoldable pub atomic_incr_add_get : ℕ → ℕ × ℕ
atomic_incr_add_get var = let new = (var + 1) % u32_mod in (new, new)

unfoldable pub atomic_decr_sub_get : ℕ → ℕ × ℕ
atomic_decr_sub_get var = let new = (var + u32_mod - 1) % u32_mod in (new, new)

unfoldable pub atomic_incr2_get_add : ℕ → ℕ × ℕ
atomic_incr2_get_add var = (var, (var + 2) % u32_mod)

unfoldable pub atomic_decr2_get_sub : ℕ → ℕ × ℕ
atomic_decr2_get_sub var = (var, (var + u32_mod - 2) % u32_mod)

unfoldable pub atomic_incr_get_add : ℕ → ℕ × ℕ
atomic_incr_get_add var = (var, (var + 1) % u32_mod)

unfoldable pub atomic_decr_get_sub : ℕ → ℕ × ℕ
atomic_decr_get_sub var = (var, (var + u32_mod - 1) % u32_mod)
