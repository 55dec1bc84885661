-- ===== src/Table/Memory.antt =====
-- The heap of `KVdata` records (ahashtable.h) and the memory operations that the table uses.
use acached.Prelude.{
  ℕ, zero, suc, List, [], ◌∷◌, Bool, true, false, Option, none, some, ◌==◌, if◌then◌else◌, ◌≡◌, ◌≢◌,
  arith,
}
use acached.Queue.{Ptr, null}

-- `bytes` is the memory from `&data` to the end of the allocation: the key, the value, and zeros.
pub record Entry : Type 0 where
  pub keylen : ℕ
  pub vallen : ℕ
  pub bytes : List ℕ

pub record KvData : Type 0 where
  pub next : Ptr
  pub prev : Ptr
  pub entry : Entry
  pub open entry use *

abbrev pub kv_data : Entry → Ptr → Ptr → KvData
kv_data e next prev = record { next = next; prev = prev; entry = e }

abbrev pub Heap : Type 0
Heap = Ptr → Option KvData

unfoldable pub write : Heap → Ptr → Option KvData → Heap
write h p cell q = if q == p then cell else h q

-- `none` is a fault: a read outside an allocation, or the end of the fuel.
abbrev pub Command : Type 0 → Type 0
Command A = Heap → Option (A × Heap)

infixl 5 ◌>>=◌ ◌>>◌
abbrev pub ◌>>=◌ : {A B : Type 0} → Command A → (A → Command B) → Command B
◌>>=◌ m f h = elim (m h) [ none ↦ none | some (a, h') ↦ f a h' ]

abbrev pub ◌>>◌ : {B : Type 0} → Command (Unit {0}) → Command B → Command B
m >> k = m >>= λ _. k

abbrev pub pure : {A : Type 0} → A → Command A
pure a h = some (a, h)

unfoldable pub load : Ptr → Command KvData
load p h = if p == null then none else elim (h p) [ none ↦ none | some n ↦ some (n, h) ]

-- a write to a record that was read before
unfoldable pub store : Ptr → KvData → Command (Unit {0})
unfolding write
store p n h = some (tt, write h p (some n))

unfoldable pub free : Ptr → Command (Unit {0})
unfolding write
free p h = some (tt, write h p none)

-- `if (p) p->field = …`
unfoldable pub when_not_null : Ptr → (KvData → KvData) → Command (Unit {0})
when_not_null p f = if p == null then pure tt else (do n ← load p; store p (f n))

-- `!strncmp(s, t, n)`: `none` where it would read past the end of either
unfoldable pub same_prefix : List ℕ → List ℕ → ℕ → Option Bool
same_prefix s t zero = some true
same_prefix [] t (suc n) = none
same_prefix (a ∷ s) [] (suc n) = none
same_prefix (a ∷ s) (b ∷ t) (suc n) =
    if a == b then (if a == 0 then some true else same_prefix s t n) else some false

unfoldable pub strncmp : List ℕ → List ℕ → ℕ → Command Bool
unfolding same_prefix
strncmp s t n h = elim (same_prefix s t n) [ none ↦ none | some b ↦ some (b, h) ]

-- One step of a command.
pub bind_run :
    {A B : Type 0} (m : Command A) (f : A → Command B) (h g : Heap) (a : A)
    → m h ≡ some (a, g)
    → (m >>= f) h ≡ f a g
bind_run m f h g a e = rw (e, ◌>>=◌)

pub load_run : (p : Ptr) (h : Heap) (k : KvData) → p ≢ null → h p ≡ some k → load p h ≡ some (k, h)
unfolding load
load_run p h k real e = ground arith

pub strncmp_run :
    (key bytes : List ℕ) (n : ℕ) (h : Heap) (b : Bool)
    → same_prefix key bytes n ≡ some b
    → strncmp key bytes n h ≡ some (b, h)
unfolding strncmp
strncmp_run key bytes n h b e = rw (e, strncmp)
