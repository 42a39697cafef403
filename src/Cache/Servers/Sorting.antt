-- ===== src/Cache/Servers/Sorting.antt =====
-- What `TrySort` does to the list of servers (cache/authserver.go).
use mathlib.Core.List.{Perm}
use mathlib.Core.List.Perm
use sdns.Base.{
  ℕ, zero, suc, ◌+◌, ◌%◌, ◌≤◌, ◌≡◌, refl, List, [], ◌∷◌, map, Bytes, ltb, ◌==◌, arith, Bool-cases,
  inl, inr, All,
}
use sdns.Cache.Servers.{AuthServer, AuthServers, average, insert, sort_by_rtt, try_sort}

abbrev pub hosts : List AuthServer → List Bytes
hosts = map (λ s. s.host)

abbrev pub IsSorted : List AuthServer → Type 0
IsSorted [] = Unit
IsSorted (s ∷ ss) = All (λ t. s.rtt ≤ t.rtt) ss × IsSorted ss

insert-perm : (s : AuthServer) (ts : List AuthServer) → Perm (insert s ts) (s ∷ ts)
unfolding insert
insert-perm s [] = Perm.refl (s ∷ [])
insert-perm s (t ∷ ts) = elim (Bool-cases (ltb t.rtt s.rtt)) [
  | inl e ↦ rw e (Perm.trans (Perm.cons t (insert-perm s ts)) (Perm.swap s t ts))
  | inr e ↦ rw e (Perm.refl (s ∷ t ∷ ts))
]

sort_by_rtt-perm : (ss : List AuthServer) → Perm (sort_by_rtt ss) ss
unfolding sort_by_rtt
sort_by_rtt-perm [] = Perm.refl []
sort_by_rtt-perm (s ∷ ss) = Perm.trans (insert-perm s _) (Perm.cons s (sort_by_rtt-perm ss))

hosts-map-average : (ss : List AuthServer) → hosts (map average ss) ≡ hosts ss
unfolding average
hosts-map-average [] = refl
hosts-map-average (s ∷ ss) = ground (arith, hosts-map-average ss)

-- No server is lost or added, on any call.
pub try_sort-perm : (s : AuthServers) → Perm (hosts (try_sort s).list) (hosts s.list)
unfolding try_sort
try_sort-perm s = elim (Bool-cases ((s.called + 1) % 20 == 0)) [
  | inl e ↦
      rw (e, ← hosts-map-average s.list)
        (Perm.map (λ t. t.host) (sort_by_rtt-perm (map average s.list)))
  | inr e ↦ rw e (Perm.refl (hosts s.list))
]

All-trans :
    (a b : ℕ) (ss : List AuthServer) → a ≤ b → All (λ t. b ≤ t.rtt) ss → All (λ t. a ≤ t.rtt) ss
All-trans a b [] h k = tt
All-trans a b (s ∷ ss) h k = (omega arith, All-trans a b ss h k.1)

All-insert :
    (a : ℕ) (s : AuthServer) (ts : List AuthServer)
    → a ≤ s.rtt
    → All (λ t. a ≤ t.rtt) ts
    → All (λ t. a ≤ t.rtt) (insert s ts)
unfolding insert
All-insert a s [] h k = (h, tt)
All-insert a s (t ∷ ts) h k = elim (Bool-cases (ltb t.rtt s.rtt)) [
  | inl e ↦ rw e (k.0, All-insert a s ts h k.1)
  | inr e ↦ rw e (h, k)
]

insert-IsSorted : (s : AuthServer) (ts : List AuthServer) → IsSorted ts → IsSorted (insert s ts)
unfolding insert
insert-IsSorted s [] h = (tt, tt)
insert-IsSorted s (t ∷ ts) h = elim (Bool-cases (ltb t.rtt s.rtt)) [
  | inl e ↦ rw e (All-insert t.rtt s ts (ground arith) h.0, insert-IsSorted s ts h.1)
  | inr e ↦ rw e ((ground arith, All-trans s.rtt t.rtt ts (ground arith) h.0), h)
]

sort_by_rtt-IsSorted : (ss : List AuthServer) → IsSorted (sort_by_rtt ss)
unfolding sort_by_rtt
sort_by_rtt-IsSorted [] = tt
sort_by_rtt-IsSorted (s ∷ ss) = insert-IsSorted s _ (sort_by_rtt-IsSorted ss)

-- On every twentieth call the servers are sorted by round-trip time and the counter starts again.
pub try_sort-IsSorted :
    (s : AuthServers) → s.called ≡ 19 → IsSorted (try_sort s).list × ((try_sort s).called ≡ 0)
unfolding try_sort
try_sort-IsSorted s h = rw h (sort_by_rtt-IsSorted (map average s.list), refl)

pub try_sorts : ℕ → AuthServers → AuthServers
try_sorts zero s = s
try_sorts (suc n) s = try_sort (try_sorts n s)

-- After `n` calls on a fresh list the counter is `n` modulo 20, so it never grows past 19.
pub called-try_sorts : (n : ℕ) (s : AuthServers) → s.called ≡ 0 → (try_sorts n s).called ≡ n % 20
unfolding try_sorts try_sort
called-try_sorts zero s h = ground arith
called-try_sorts (suc n) s h = ground (arith, called-try_sorts n s h)
