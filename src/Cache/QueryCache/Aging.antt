-- ===== src/Cache/QueryCache/Aging.antt =====
-- The ageing of the records of a cached answer (cache/query_cache.go, `Get`).
use sdns.Base.{
  ℕ, ◌+◌, ◌-◌, ◌^◌, ◌≤◌, ◌<◌, ◌≡◌, refl, Bool, true, List, [], ◌∷◌, map, none, some, leb,
  if◌then◌else◌, ◌&&◌, arith, inl, inr, Option-cases,
}
use sdns.Cache.Clock.{elapsed, elapsed-add_elapsed}
use sdns.Cache.QueryCache.{Query, age_records, refresh}
use sdns.Dns.{Rr}

-- every record has at least `e` seconds to live
abbrev pub alive : ℕ → List Rr → Bool
alive e [] = true
alive e (r ∷ rs) = leb e r.ttl && alive e rs

abbrev pub decay : ℕ → Rr → Rr
decay e r = record r { ttl = r.ttl - e }

-- The loop succeeds exactly when every record outlives the age, and lowers each TTL by it.
pub age_records-eq-map :
    (e : ℕ) (rs : List Rr)
    → age_records e rs ≡ (if alive e rs then some (map (decay e) rs) else none)
unfolding age_records
age_records-eq-map e [] = refl
age_records-eq-map e (r ∷ rs) = ground (arith, age_records-eq-map e rs)

pub refresh-eq-decay :
    {R : Type 0} (now e : ℕ) (q : Query R)
    → elapsed now q.update_time ≡ e
    → refresh now q ≡ (
        if alive e q.item.answer && alive e q.item.ns
        then some (record q {
          item = record q.item {
            answer = map (decay e) q.item.answer;
            ns = map (decay e) q.item.ns;
          };
          update_time = now;
        })
        else none)
unfolding refresh
refresh-eq-decay now e q h =
    ground (arith, age_records-eq-map e q.item.answer, age_records-eq-map e q.item.ns)

-- Ageing twice is ageing once by the sum.
pub age_records_twice :
    (a b : ℕ) (rs : List Rr) {rs' : List Rr}
    → age_records a rs ≡ some rs'
    → age_records b rs' ≡ age_records (a + b) rs
unfolding age_records
age_records_twice a b [] h = ground arith
age_records_twice a b (r ∷ rs) h = elim (Option-cases (age_records a rs)) [
  | inl e ↦ absurd (ground arith)
  | inr (rest, e) ↦ ground (arith, age_records_twice a b rs e)
]

pub refresh-refresh :
    {R : Type 0} (t u : ℕ) (q : Query R) {q' : Query R}
    → q.update_time ≤ t
    → t ≤ u
    → u - q.update_time < 2 ^ 32
    → refresh t q ≡ some q'
    → refresh u q' ≡ refresh u q
unfolding refresh
refresh-refresh t u q le le' fits h =
    let age = elapsed t q.update_time in
    elim (Option-cases (age_records age q.item.answer)) [
      | inl e ↦ absurd (ground arith)
      | inr (answer, e) ↦ elim (Option-cases (age_records age q.item.ns)) [
        | inl f ↦ absurd (ground arith)
        | inr (ns, f) ↦ ground (
          arith,
          elapsed-add_elapsed q.update_time t u le le' fits,
          age_records_twice age (elapsed u t) q.item.answer e,
          age_records_twice age (elapsed u t) q.item.ns f,
        )
      ]
    ]
