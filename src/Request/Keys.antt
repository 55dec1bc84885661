-- ===== src/Request/Keys.antt =====
-- The messages of a gets command, one for each key.
use acached.Prelude.{
  ℕ, ◌+◌, ◌%◌, ◌^◌, ◌<◌, ◌≡◌, ◌≢◌, refl, sym, ap, ◌∙◌, List, [], ◌∷◌, ◌++◌, false, Option, some,
  ◌==◌, leb, if◌then◌else◌, arith, ==_refl, length, take, drop, set, Bool-cases, inl, inr,
}
use mathlib.Core.List.{append_assoc, append-nil}
use acached.Atomic.{atomic_reset}
use acached.Queue.{Ptr, null}
use acached.Queue.FreeBusy.Shared.{FbSharedQ}
use acached.Pool.{a_sga_allocate, a_msg_allocate}
use acached.Pool.Conserve.{idle, allocate_lem}
use acached.Global.{Sga, kvdata_index}
use acached.Parse.Header.{key_array_size}
use acached.Parse.Header.Strings.{strncpy_whole}
use acached.Message.{Msg, init, kvdata, msg_hdr_in_init}
use acached.Request.{
  World, with_connection, bind_lem, on_msg_pool, allocate, put_connection, put_message, post2kvdata,
  post_keys, counted,
}

take-set_behind : (s rest : List ℕ) (v : ℕ) → take (length s) (set (s ++ rest) (length s) v) ≡ s
take-set_behind [] rest v = refl
take-set_behind (c ∷ s) rest v = ap (◌∷◌ c) (take-set_behind s rest v)

-- The address and the message of the next key.
record Keyed (hash : List ℕ → ℕ) (this : Ptr) (key : List ℕ) (m : Msg) : Type 0 where
  to : m.a_c ≡ this
  text : take m.keylen m.key ≡ key
  hashval : m.hashval ≡ hash key

msg_hdr_in_init-Keyed :
    (hash : List ℕ → ℕ) (this : Ptr) (key : List ℕ) (m : Msg)
    → m.a_c ≡ this
    → length key < key_array_size
    → (m' : Msg) × (msg_hdr_in_init hash key (length key) 0 m ≡ some m') × Keyed hash this key m'
unfolding msg_hdr_in_init
msg_hdr_in_init-Keyed hash this key m to fits =
    let inside : leb key_array_size (length key) ≡ false = ground (arith, fits) in
    let text = take-set_behind key (drop (length key) m.key) 0 in
    rw (inside, strncpy_whole key, text) (_, refl, record { to = to; text = text; hashval = refl })

first_free :
    (fresh : ℕ → List Ptr) (kind type : ℕ) (p : Ptr) (free busy : List Ptr)
    → p ≢ null
    → a_msg_allocate 2 fresh (idle kind type (p ∷ free) busy)
      ≡ some (p, idle kind type free (busy ++ p ∷ []))
unfolding a_msg_allocate a_sga_allocate
first_free fresh kind type p free busy real =
    let found : (p == null) ≡ false = ground (arith, real) in
    rw (allocate_lem kind type (p ∷ free) busy, found) refl

pub on_msg_pool_lem :
    {A : Type 0} (f : FbSharedQ → Option (A × FbSharedQ)) (w : World) (a : A) (q : FbSharedQ)
    → f w.msg_pool ≡ some (a, q)
    → on_msg_pool f w ≡ some (a, record w { msg_pool = q })
on_msg_pool_lem f w a q e = rw (e, on_msg_pool) refl

pub allocate_first :
    (fresh : ℕ → List Ptr) (hash : List ℕ → ℕ) (kind type : ℕ) (p : Ptr) (free busy : List Ptr)
    (w : World)
    → p ≢ null
    → w.msg_pool ≡ idle kind type (p ∷ free) busy
    → allocate hash fresh w ≡ some (p, record w { msg_pool = idle kind type free (busy ++ p ∷ []) })
unfolding allocate
allocate_first fresh hash kind type p free busy w real e =
    on_msg_pool_lem (a_msg_allocate 2 fresh) w p _
      (ap (a_msg_allocate 2 fresh) e ∙ first_free fresh kind type p free busy real)

-- Each address with the key that it is for.
abbrev pub posted_to : (List ℕ → ℕ) → Sga → ℕ → List (List ℕ) → List Ptr → List Ptr
posted_to hash sga i [] ptrs = []
posted_to hash sga i (key ∷ keys) [] = []
posted_to hash sga i (key ∷ keys) (p ∷ ptrs) =
    let rest = posted_to hash sga i keys ptrs in
    if i == kvdata_index sga (hash key) then p ∷ rest else rest

abbrev pub Fits : List (List ℕ) → Type 0
Fits [] = Unit {0}
Fits (key ∷ keys) = (length key < key_array_size) × Fits keys

abbrev pub Real : List Ptr → Type 0
Real [] = Unit {0}
Real (p ∷ ptrs) = (p ≢ null) × Real ptrs

-- What the loop over at least one key leaves.
pub record Posted (hash : List ℕ → ℕ) (this : Ptr) (keys : List (List ℕ)) (ptrs : List Ptr)
    (w w' : World) : Type 0 where
  pub req_count :
      (w'.connections this).req_count ≡ ((w.connections this).req_count + length keys) % 2 ^ 32
  pub conc_pending :
      (w'.connections this).conc_pending ≡ (atomic_reset (w.connections this).conc_pending).1
  pub busy : (w'.connections this).busy ≡ (w.connections this).busy
  pub posted : (i : ℕ) → w'.posted i ≡ w.posted i ++ posted_to hash w.sga i keys ptrs
  pub sga : w'.sga ≡ w.sga

module _ (hash : List ℕ → ℕ) (fresh : ℕ → List Ptr) where
  -- One key: its message, in the pool's first free object.
  record Single (this : Ptr) (keys : List (List ℕ)) (key : List ℕ) (p : Ptr) (kind type : ℕ)
      (free busy : List Ptr) (w : World) : Type 0 where
    next : World
    run : post_keys hash fresh this (key ∷ keys) w ≡ post_keys hash fresh this keys next
    connection : next.connections this ≡ counted keys (w.connections this)
    pool : next.msg_pool ≡ idle kind type free (busy ++ p ∷ [])
    posted : (i : ℕ) → next.posted i ≡ w.posted i ++ posted_to hash w.sga i (key ∷ []) (p ∷ [])
    sga : next.sga ≡ w.sga
    keyed : Keyed hash this key (next.messages p)

  post_one :
      (this : Ptr) (keys : List (List ℕ)) (key : List ℕ) (p : Ptr) (kind type : ℕ)
      (free busy : List Ptr) (w : World)
      → w.msg_pool ≡ idle kind type (p ∷ free) busy
      → p ≢ null
      → length key < key_array_size
      → Single this keys key p kind type free busy w
  unfolding post_keys put_message put_connection post2kvdata init
  post_one this keys key p kind type free busy w e real fits =
      let c = w.connections this in
      let (m, made, k) =
        msg_hdr_in_init-Keyed hash this key (init kvdata this c.receiver.cmd.ctype) refl fits in
      let index = kvdata_index w.sga (hash key) in
      let allocated = allocate_first fresh hash kind type p free busy w real e in
      record {
        next = record w {
          msg_pool = idle kind type free (busy ++ p ∷ []);
          messages = λ q. if q == p then m else w.messages q;
          connections = λ q. if q == this then counted keys c else w.connections q;
          posted = λ i. if i == index then w.posted i ++ p ∷ [] else w.posted i;
        };
        run =
            bind_lem (allocate hash fresh) _ w _ p allocated
            ∙ rw (made, ==_refl p, k.hashval, with_connection) refl;
        connection = rw (==_refl this) refl;
        pool = refl;
        posted = λ i. elim (Bool-cases (i == index)) [
          | inl same ↦ rw same refl
          | inr other ↦ rw other (sym (append-nil (w.posted i)))
        ];
        sga = refl;
        keyed = rw (==_refl p) k;
      }

  one_key :
      (this : Ptr) (key : List ℕ) (p : Ptr) (kind type : ℕ) (free busy : List Ptr) (w : World)
      → Single this [] key p kind type free busy w
      → (w' : World) × (post_keys hash fresh this (key ∷ []) w ≡ some (tt, w'))
        × Posted hash this (key ∷ []) (p ∷ []) w w'
        × (w'.msg_pool ≡ idle kind type free (busy ++ p ∷ []))
  unfolding post_keys counted
  one_key this key p kind type free busy w o = (
    o.next,
    o.run,
    record {
      req_count = ap (λ c. c.req_count) o.connection;
      conc_pending = ap (λ c. c.conc_pending) o.connection;
      busy = ap (λ c. c.busy) o.connection;
      posted = o.posted;
      sga = o.sga;
    },
    o.pool,
  )

  posted_to-cons :
      (sga : Sga) (i : ℕ) (key : List ℕ) (keys : List (List ℕ)) (p : Ptr) (ptrs : List Ptr)
      → posted_to hash sga i (key ∷ []) (p ∷ []) ++ posted_to hash sga i keys ptrs
        ≡ posted_to hash sga i (key ∷ keys) (p ∷ ptrs)
  posted_to-cons sga i key keys p ptrs = elim (Bool-cases (i == kvdata_index sga (hash key))) [
    | inl same ↦ rw same refl
    | inr other ↦ rw other refl
  ]

  more_keys :
      (this : Ptr) (key key' : List ℕ) (keys : List (List ℕ)) (p : Ptr) (ptrs : List Ptr)
      (kind type : ℕ) (free busy : List Ptr) (w w' : World)
      → (o : Single this (key' ∷ keys) key p kind type free busy w)
      → Posted hash this (key' ∷ keys) ptrs o.next w'
      → Posted hash this (key ∷ key' ∷ keys) (p ∷ ptrs) w w'
  unfolding counted
  more_keys this key key' keys p ptrs kind type free busy w w' o k =
      let count = ap (λ c. c.req_count) o.connection in
      let after = k.req_count in
      record {
        req_count = omega (arith, count, after);
        conc_pending = k.conc_pending ∙ ap (λ c. (atomic_reset c.conc_pending).1) o.connection;
        busy = k.busy ∙ ap (λ c. c.busy) o.connection;
        posted = λ i.
            k.posted i
            ∙ ap (λ s. o.next.posted i ++ posted_to hash s i (key' ∷ keys) ptrs) o.sga
            ∙ ap (λ l. l ++ posted_to hash w.sga i (key' ∷ keys) ptrs) (o.posted i)
            ∙ append_assoc (w.posted i) (posted_to hash w.sga i (key ∷ []) (p ∷ []))
                (posted_to hash w.sga i (key' ∷ keys) ptrs)
            ∙ ap (◌++◌ (w.posted i)) (posted_to-cons w.sga i key (key' ∷ keys) p ptrs);
        sga = k.sga ∙ o.sga;
      }

  -- When the message pool's mutexes are free and it has a free object that is not `NULL` for each of
  -- the keys, of which there is one at least and none of 256 bytes or more: the loop of a gets
  -- command returns, each key's message stands behind those that were posted before at the index of
  -- the key's hash value, in the order of the keys, the count of requests has grown by the
  -- number of keys modulo 2 ^ 32, and the pending state is reset.
  pub post_keys-Posted :
      (this : Ptr) (key : List ℕ) (keys : List (List ℕ)) (p : Ptr) (ptrs more busy : List Ptr)
      (kind type : ℕ) (w : World)
      → length keys ≡ length ptrs
      → Fits (key ∷ keys)
      → Real (p ∷ ptrs)
      → w.msg_pool ≡ idle kind type (p ∷ ptrs ++ more) busy
      → (w' : World) × (post_keys hash fresh this (key ∷ keys) w ≡ some (tt, w'))
        × Posted hash this (key ∷ keys) (p ∷ ptrs) w w'
        × (w'.msg_pool ≡ idle kind type more (busy ++ p ∷ ptrs))
  post_keys-Posted this key [] p [] more busy kind type w n (f, fs) (r, rs) e =
      one_key this key p kind type more busy w (post_one this [] key p kind type more busy w e r f)
  post_keys-Posted this key [] p (p' ∷ ptrs) more busy kind type w n f r e =
      absurd (omega (arith, n))
  post_keys-Posted this key (key' ∷ keys) p [] more busy kind type w n f r e =
      absurd (omega (arith, n))
  post_keys-Posted this key (key' ∷ keys) p (p' ∷ ptrs) more busy kind type w n (f, fs) (r, rs) e =
      let free = (p' ∷ ptrs) ++ more in
      let o = post_one this (key' ∷ keys) key p kind type free busy w e r f in
      let (w', run, k, pool) =
        post_keys-Posted this key' keys p' ptrs more (busy ++ p ∷ []) kind type o.next
          (omega (arith, n)) fs rs o.pool in
      (
        w',
        o.run ∙ run,
        more_keys this key key' keys p (p' ∷ ptrs) kind type free busy w w' o k,
        pool ∙ ap (idle kind type more) (append_assoc busy (p ∷ []) (p' ∷ ptrs)),
      )
