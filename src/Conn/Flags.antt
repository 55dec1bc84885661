-- ===== src/Conn/Flags.antt =====
-- The counter and the flags of a connection under any calls, in whatever order they take effect.
use acached.Prelude.{ℕ, ◌+◌, ◌-◌, ◌%◌, ◌<◌, ◌≡◌, refl, List, [], ◌∷◌, arith, subst}
use acached.Atomic.{
  u32_mod, compare_and_swap, atomic_is_set, atomic_set, atomic_reset, atomic_incr_add_get,
  atomic_decr_sub_get,
}
use acached.Conn.{
  Conn, init, reset, assign, revoke, is_dirty_fd, dirty_fd_set, dirty_fd_reset, is_concurrent,
  concurrent_set, concurrent_reset, is_conc_pending, conc_pending_set, conc_pending_reset,
}

pub data Call : Type 0 where
  assigns revokes tests_dirty sets_dirty resets_dirty tests_concurrent sets_concurrent
        resets_concurrent tests_pending sets_pending resets_pending :
      Call

unfoldable pub call : Call → Conn → ℕ × Conn
call assigns = assign
call revokes = revoke
call tests_dirty = is_dirty_fd
call sets_dirty = dirty_fd_set
call resets_dirty = dirty_fd_reset
call tests_concurrent = is_concurrent
call sets_concurrent = concurrent_set
call resets_concurrent = concurrent_reset
call tests_pending = is_conc_pending
call sets_pending = conc_pending_set
call resets_pending = conc_pending_reset

unfoldable pub call_all : List Call → Conn → Conn
unfolding call
call_all [] c = c
call_all (x ∷ xs) c = call_all xs (call x c).1

-- By how much a call changes the counter, modulo 2 ^ 32.
abbrev pub step : Call → ℕ
step assigns = 1
step revokes = u32_mod - 1
step _ = 0

abbrev pub steps : List Call → ℕ
steps [] = 0
steps (x ∷ xs) = step x + steps xs

-- The flags are 0 or 1, and the counter has `count` more references than revocations.
pub record Consistent (count : ℕ) (c : Conn) : Type 0 where
  pub concurrent : c.concurrent < 2
  pub dirty_fd : c.dirty_fd < 2
  pub conc_pending : c.conc_pending < 2
  pub refcount : c.refcount ≡ count % u32_mod

call-Consistent :
    (x : Call) (count : ℕ) (c : Conn)
    → Consistent count c
    → Consistent (count + step x) (call x c).1
unfolding call assign revoke is_dirty_fd dirty_fd_set dirty_fd_reset is_concurrent concurrent_set
    concurrent_reset is_conc_pending conc_pending_set conc_pending_reset compare_and_swap
    atomic_is_set atomic_set atomic_reset atomic_incr_add_get atomic_decr_sub_get
call-Consistent assigns count c h = record {
  concurrent = ground (arith, h.concurrent);
  dirty_fd = ground (arith, h.dirty_fd);
  conc_pending = ground (arith, h.conc_pending);
  refcount = ground (arith, h.refcount);
}
call-Consistent revokes count c h = record {
  concurrent = ground (arith, h.concurrent);
  dirty_fd = ground (arith, h.dirty_fd);
  conc_pending = ground (arith, h.conc_pending);
  refcount = ground (arith, h.refcount);
}
call-Consistent _ count c h = record {
  concurrent = ground (arith, h.concurrent);
  dirty_fd = ground (arith, h.dirty_fd);
  conc_pending = ground (arith, h.conc_pending);
  refcount = ground (arith, h.refcount);
}

call_all-Consistent :
    (xs : List Call) (count : ℕ) (c : Conn)
    → Consistent count c
    → Consistent (count + steps xs) (call_all xs c)
unfolding call_all
call_all-Consistent [] count c h = subst (λ n. Consistent n c) (omega arith) h
call_all-Consistent (x ∷ xs) count c h =
    let e : count + step x + steps xs ≡ count + (step x + steps xs) = omega arith in
    subst (λ n. Consistent n (call_all xs (call x c).1)) e
      (call_all-Consistent xs (count + step x) (call x c).1 (call-Consistent x count c h))

init-Consistent : (c_type c_sock_fd : ℕ) (c : Conn) → Consistent 0 (init c_type c_sock_fd c)
unfolding init reset
init-Consistent c_type c_sock_fd c = record {
  concurrent = omega arith;
  dirty_fd = omega arith;
  conc_pending = omega arith;
  refcount = refl;
}

-- Whatever state a pooled connection was left in, after `Init` and any calls on its counter and its
-- flags, in any order, the flags are 0 or 1 and the counter is the number of references less that of
-- revocations, modulo 2 ^ 32.
pub call_all-init :
    (xs : List Call) (c_type c_sock_fd : ℕ) (c : Conn)
    → Consistent (steps xs) (call_all xs (init c_type c_sock_fd c))
call_all-init xs c_type c_sock_fd c =
    let e : 0 + steps xs ≡ steps xs = omega arith in
    subst (λ n. Consistent n (call_all xs (init c_type c_sock_fd c))) e
      (call_all-Consistent xs 0 (init c_type c_sock_fd c) (init-Consistent c_type c_sock_fd c))
