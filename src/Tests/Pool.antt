-- ===== src/Tests/Pool.antt =====
-- A pool of three objects.
use acached.Prelude.{◌≡◌, ◌≢◌, refl, [], ◌∷◌, some, arith}
use acached.Queue.{Ptr, null, a_q_get, a_q_put}
use acached.Queue.FreeBusy.Shared.{FbSharedQ}
use acached.Pool.{a_sga_allocate, a_sga_release}
use acached.Pool.Conserve.{idle, count, owned, release-allocate}
use acached.Pool.Interleave.{Shop, take, publish, Reach, here, next, places, Distinct, Reach-places}

release-allocate_example :
    (f : FbSharedQ) × (a_sga_allocate (idle 0 0 (11 ∷ 12 ∷ []) (13 ∷ [])) ≡ some (11, f))
    × ((q : Ptr) → count q (owned f) ≡ count q (11 ∷ 12 ∷ 13 ∷ []))
    × (count 11 f.busy_q.q.items ≡ 1)
    × (a_sga_release 11 f ≡ some (null, idle 0 0 (12 ∷ 11 ∷ []) (13 ∷ [])))
unfolding count
release-allocate_example = release-allocate 0 0 11 (12 ∷ []) (13 ∷ []) refl

abbrev shop : Shop
shop = record {
  free = record { type = 0; items = 11 ∷ 12 ∷ [] };
  busy = record { type = 0; items = 13 ∷ [] };
  taking = [];
  returning = [];
}

abbrev taken : Shop
taken = record shop { free = record { type = 0; items = 12 ∷ [] }; taking = 11 ∷ [] }

abbrev published : Shop
published = record taken { busy = record { type = 0; items = 13 ∷ 11 ∷ [] }; taking = [] }

reached : Reach shop published
unfolding a_q_get a_q_put
reached =
    next
      (next here (take 11 record { type = 0; items = 12 ∷ [] } refl)
        (λ e. absurd (ground (arith, e))))
      (publish 11 [] [] refl) (λ e. absurd (ground (arith, e)))

distinct : Distinct shop
unfolding places count
distinct p real = ground arith

Reach-places_example :
    Distinct published × ((p : Ptr) → p ≢ null → places p shop ≡ 1 → places p published ≡ 1)
Reach-places_example = Reach-places reached distinct
