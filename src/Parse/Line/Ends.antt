-- ===== src/Parse/Line/Ends.antt =====
-- Where the search for the end of the line stops.
use acached.Prelude.{
  ℕ, suc, ◌+◌, ◌-◌, ◌%◌, ◌^◌, ◌<◌, ◌≡◌, refl, sym, ap, ◌∙◌, List, [], ◌∷◌, ◌++◌, Bool, true, false,
  Option, none, some, ◌==◌, ltb, lt→ltb, if◌then◌else◌, length, arith, Bool-cases, ==_iff, inl, inr,
}
use mathlib.Core.Option.{some-injective}
use acached.Parse.Line.{Completion, behind, scan_line, is_buffer_complete}

-- Whether the byte stands in the list.
unfoldable pub contains : ℕ → List ℕ → Bool
contains c [] = false
contains c (x ∷ xs) = let rest = contains c xs in if x == c then true else rest

scan_line-step :
    (offset c : ℕ) (rest : List ℕ)
    → (c == b'\r') ≡ false
    → scan_line offset (c ∷ rest) ≡ behind c (scan_line (offset + 1) rest)
unfolding scan_line
scan_line-step offset c [] h = refl
scan_line-step offset c (d ∷ ds) h = rw h refl

line_found : (offset n : ℕ) → (offset + 1 + (n + 2)) % 2 ^ 32 ≡ (offset + (suc n + 2)) % 2 ^ 32
line_found offset n = ap (λ k. k % 2 ^ 32) (omega arith)

contains-head : (c x : ℕ) (xs : List ℕ) → contains c (x ∷ xs) ≡ false → (x == c) ≡ false
unfolding contains
contains-head c x xs h = ground arith

contains-tail : (c x : ℕ) (xs : List ℕ) → contains c (x ∷ xs) ≡ false → contains c xs ≡ false
unfolding contains
contains-tail c x xs h = ground arith

scan_line-found :
    (offset : ℕ) (rest : List ℕ)
    → scan_line offset (b'\r' ∷ b'\n' ∷ rest)
      ≡ some record { found = (offset + 2) % 2 ^ 32; memory = 0 ∷ 0 ∷ rest }
unfolding scan_line
scan_line-found offset rest = refl

scan_line-nil : (offset : ℕ) → scan_line offset [] ≡ none
unfolding scan_line
scan_line-nil offset = refl

scan_line-ended :
    (offset : ℕ) (line rest : List ℕ)
    → contains b'\r' line ≡ false
    → scan_line offset (line ++ b'\r' ∷ b'\n' ∷ rest)
      ≡ some record { found = (offset + (length line + 2)) % 2 ^ 32; memory = line ++ 0 ∷ 0 ∷ rest }
scan_line-ended offset [] rest h = scan_line-found offset rest
scan_line-ended offset (x ∷ line) rest h =
    rw
      (
        scan_line-step offset x (line ++ b'\r' ∷ b'\n' ∷ rest) (contains-head b'\r' x line h),
        scan_line-ended (offset + 1) line rest (contains-tail b'\r' x line h),
        line_found offset (length line),
      )
      refl

scan_line-endless :
    (offset : ℕ) (memory : List ℕ) → contains b'\r' memory ≡ false → scan_line offset memory ≡ none
scan_line-endless offset [] h = scan_line-nil offset
scan_line-endless offset (x ∷ xs) h =
    rw
      (
        scan_line-step offset x xs (contains-head b'\r' x xs h),
        scan_line-endless (offset + 1) xs (contains-tail b'\r' x xs h),
      )
      refl

-- The result ends at a line end of the memory, which is overwritten by two NULs.
abbrev pub EndsAt : ℕ → List ℕ → Completion → Type 0
EndsAt offset memory l =
    (before : List ℕ) × (rest : List ℕ) × (memory ≡ before ++ b'\r' ∷ b'\n' ∷ rest)
    × (l ≡ record {
      found = (offset + (length before + 2)) % 2 ^ 32;
      memory = before ++ 0 ∷ 0 ∷ rest;
    })

abbrev keep : ℕ → Completion → Completion
keep c l = record l { memory = c ∷ l.memory }

abbrev completion : List ℕ → ℕ → Completion
completion memory n = record { found = n; memory = memory }

behind-some :
    (c offset : ℕ) (memory : List ℕ) (o : Option Completion) (l : Completion)
    → ((k : Completion) → o ≡ some k → EndsAt (offset + 1) memory k)
    → behind c o ≡ some l
    → EndsAt offset (c ∷ memory) l
behind-some c offset memory none l ends e = absurd (ground arith)
behind-some c offset memory (some k) l ends e =
    let (before, rest, m, q) = ends k refl in
    (
      c ∷ before,
      rest,
      ap (◌∷◌ c) m,
      sym (some-injective (record k { memory = c ∷ k.memory }) l e)
          ∙ ap (keep c) q
          ∙ ap (completion (c ∷ (before ++ 0 ∷ 0 ∷ rest))) (line_found offset (length before)),
    )

scan_line-EndsAt :
    (offset : ℕ) (memory : List ℕ) (l : Completion)
    → scan_line offset memory ≡ some l
    → EndsAt offset memory l
unfolding scan_line
scan_line-EndsAt offset [] l e = absurd (ground arith)
scan_line-EndsAt offset (c ∷ []) l e = absurd (ground arith)
scan_line-EndsAt offset (c ∷ d ∷ ds) l e = elim (Bool-cases (c == b'\r')) [
  | inl r ↦ elim (Bool-cases (d == b'\n')) [
    | inl n ↦ (
      [],
      ds,
      ap (λ h. h ∷ d ∷ ds) ((==_iff c b'\r').0 r) ∙ ap (λ t. b'\r' ∷ t ∷ ds) ((==_iff d b'\n').0 n),
      sym (
          some-injective record { found = (offset + 2) % 2 ^ 32; memory = 0 ∷ 0 ∷ ds } l
            (rw (r, n) at e)),
    )
    | inr ne ↦
        behind-some c offset (d ∷ ds) (behind d (scan_line (offset + 2) ds)) l
          (λ k. behind-some d (offset + 1) ds (scan_line (offset + 2) ds) k (λ t q.
            scan_line-EndsAt (offset + 1 + 1) ds t (ap (λ o. scan_line o ds) (omega arith) ∙ q)))
          (rw (r, ne) at e)
  ]
  | inr ne ↦
      behind-some c offset (d ∷ ds) (scan_line (offset + 1) (d ∷ ds)) l
        (λ k. scan_line-EndsAt (offset + 1) (d ∷ ds) k) (rw ne at e)
]

received : (n : ℕ) → 1 < n → n < 2 ^ 64 → ltb 0 ((n + (2 ^ 64 - 1)) % 2 ^ 64) ≡ true
received n lo hi = lt→ltb 0 ((n + (2 ^ 64 - 1)) % 2 ^ 64) (omega arith)

-- When at least two and fewer than 2 ^ 64 bytes were received and the bytes before the first CR LF
-- have no CR, the search reports the offset behind the LF, modulo 2 ^ 32, and overwrites both by
-- NULs, wherever the received bytes end.
pub is_buffer_complete-ended :
    (iov_len : ℕ) (line rest : List ℕ)
    → contains b'\r' line ≡ false
    → 1 < iov_len
    → iov_len < 2 ^ 64
    → is_buffer_complete iov_len (line ++ b'\r' ∷ b'\n' ∷ rest)
      ≡ some record { found = (length line + 2) % 2 ^ 32; memory = line ++ 0 ∷ 0 ∷ rest }
unfolding is_buffer_complete
is_buffer_complete-ended iov_len line rest h lo hi = rw (received iov_len lo hi) (
    scan_line-ended 0 line rest h
    ∙ ap (λ n. some (completion (line ++ 0 ∷ 0 ∷ rest) n)) (ap (λ n. n % 2 ^ 32) (omega arith)))

-- When at least two and fewer than 2 ^ 64 bytes were received and the search returns, it has found
-- a CR LF of the memory: the result is the offset behind that LF, modulo 2 ^ 32, and the memory
-- differs by the two NULs alone.
pub is_buffer_complete-EndsAt :
    (iov_len : ℕ) (memory : List ℕ) (l : Completion)
    → 1 < iov_len
    → iov_len < 2 ^ 64
    → is_buffer_complete iov_len memory ≡ some l
    → EndsAt 0 memory l
unfolding is_buffer_complete
is_buffer_complete-EndsAt iov_len memory l lo hi e =
    scan_line-EndsAt 0 memory l (rw (received iov_len lo hi) at e)

-- When at least two and fewer than 2 ^ 64 bytes were received and no CR stands in the memory behind
-- the base of the buffer, the search reads on behind that memory.
pub is_buffer_complete-endless :
    (iov_len : ℕ) (memory : List ℕ)
    → contains b'\r' memory ≡ false
    → 1 < iov_len
    → iov_len < 2 ^ 64
    → is_buffer_complete iov_len memory ≡ none
unfolding is_buffer_complete
is_buffer_complete-endless iov_len memory h lo hi =
    rw (received iov_len lo hi) (scan_line-endless 0 memory h)
