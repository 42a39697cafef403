-- ===== src/Cache/QueryCache/Answers.antt =====
-- A test that the answers of all entries pass (cache/query_cache.go).
use sdns.Base.{ℕ, ◌≡◌, Bool, true, List, some, Option-cases, Bool-cases, inl, inr, arith, ◌==◌}
use sdns.Cache.Clock.{truncate, elapsed}
use sdns.Cache.Outcome.{ok}
use sdns.Cache.Shard
use sdns.Cache.Sharded
use sdns.Cache.Sharded.Laws
use sdns.Cache.QueryCache.{
  QueryCache, Query, age_records, refresh, new_item, to_msg, new_query_cache, get, set, remove,
}
use sdns.Cache.QueryCache.Reads.{IsValid, map-copy}
use sdns.Dns.{Rr, Msg, MsgLib}

module _ (fit : List Rr → Bool) where
  -- Every entry has an answer that passes the test.
  abbrev pub Holds : {R : Type 0} → QueryCache R → Type 0
  Holds {R} c =
      (key : ℕ) (q : Query R) → Sharded.get key c.shards ≡ some q → fit q.item.answer ≡ true

  pub new_query_cache-Holds : (R : Type 0) (size rate : ℕ) → Holds (new_query_cache R size rate)
  unfolding new_query_cache Sharded.get Sharded.new_shards Shard.get Shard.new_shard
  new_query_cache-Holds R size rate key q found = absurd (ground arith)

  -- aging does not change what the test says
  abbrev pub IsAgeless : Type 0
  IsAgeless =
      (e : ℕ) (rs rs' : List Rr) → age_records e rs ≡ some rs' → fit rs ≡ true → fit rs' ≡ true

  module _ (lib : MsgLib) {R : Type 0} where
    pub set-Holds :
        (new_limiter : ℕ → ℕ → R) (pick now key : ℕ) (msg : Msg) (c : QueryCache R)
        → IsValid c
        → fit msg.answer ≡ true
        → Holds c
        → Holds (set lib new_limiter pick now key msg c)
    unfolding set new_item
    set-Holds new_limiter pick now key msg c v f h j q found =
        elim (Laws.get-set_kept pick key j _ q v found) [
          | inl e ↦ rw (e, map-copy lib msg.answer) f
          | inr e ↦ h j q e
        ]

    remove-Holds : (key : ℕ) (c : QueryCache R) → IsValid c → Holds c → Holds (remove key c)
    unfolding remove
    remove-Holds key c v h j q found = h j q (ground (arith, Laws.get-remove key j v))

    write-Holds :
        (key : ℕ) (q : Query R) (c : QueryCache R)
        → fit q.item.answer ≡ true
        → Holds c
        → Holds (record c { shards = Sharded.write key q c.shards })
    write-Holds key q c f h j q' found = elim (Bool-cases (key == j)) [
      | inl e ↦ let same : q ≡ q' = ground (arith, Laws.get-write key j q c.shards) in rw (← same) f
      | inr e ↦ h j q' (ground (arith, Laws.get-write key j q c.shards))
    ]

    refresh_fits :
        (now : ℕ) (q q' : Query R)
        → IsAgeless
        → refresh now q ≡ some q'
        → fit q.item.answer ≡ true
        → fit q'.item.answer ≡ true
    unfolding refresh
    refresh_fits now q q' ageless e f =
        let age = elapsed now q.update_time in
        elim (Option-cases (age_records age q.item.answer)) [
          | inl g ↦ absurd (ground arith)
          | inr (answer, g) ↦ elim (Option-cases (age_records age q.item.ns)) [
            | inl i ↦ absurd (ground arith)
            | inr (ns, i) ↦
                let same : answer ≡ q'.item.answer = ground arith in
                rw (← same) (ageless age q.item.answer answer g f)
          ]
        ]

    pub get-Holds :
        (now key : ℕ) (req : Msg) (c : QueryCache R)
        → IsAgeless
        → IsValid c
        → Holds c
        → Holds (get lib now key req c).0
    unfolding get
    get-Holds now key req c ageless v h = elim (Option-cases (Sharded.get key c.shards)) [
      | inl e ↦ rw (e, get) h
      | inr (q, e) ↦ elim (Option-cases (refresh (truncate now) q)) [
        | inl f ↦ rw (e, get) (rw f (remove-Holds key c v h))
        | inr (q', f) ↦
            rw (e, get) (rw f (write-Holds key q' c (refresh_fits _ q q' ageless f (h key q e)) h))
      ]
    ]

    -- What a hit gives passes the test.
    pub get_fits :
        (now key : ℕ) (req m : Msg) (limiter : R) (c : QueryCache R)
        → IsAgeless
        → Holds c
        → (get lib now key req c).1 ≡ ok (m, limiter)
        → fit m.answer ≡ true
    unfolding get to_msg
    get_fits now key req m limiter c ageless h hit =
        elim (Option-cases (Sharded.get key c.shards)) [
          | inl e ↦ absurd (ground arith)
          | inr (q, e) ↦ elim (Option-cases (refresh (truncate now) q)) [
            | inl f ↦ absurd (ground arith)
            | inr (q', f) ↦
                let same : m.answer ≡ q'.item.answer =
                  ground (arith, map-copy lib q'.item.answer) in
                rw same (refresh_fits _ q q' ageless f (h key q e))
          ]
        ]
