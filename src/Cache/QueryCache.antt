-- ===== src/Cache/QueryCache.antt =====
-- cache/query_cache.go: answers by hash key, each with a rate limiter and the second at which its
-- records were last aged. The limiter is github.com/bsm/ratelimit's: its type and `rl.New` are
-- parameters.
pub mod Aging
pub mod Answers
pub mod Reads
use sdns.Base.{
  ℕ, ◌-◌, ◌^◌, Bool, false, List, [], ◌∷◌, map, Option, none, some, ltb, if◌then◌else◌, ◌>>=◌,
}
use sdns.Cache.Clock.{truncate, elapsed}
use sdns.Cache.Outcome.{Result, ok, err, not_found, expired}
use sdns.Cache.Sharded
use sdns.Cache.Sharded.{Shards}
use sdns.Dns.{Rr, Msg, MsgLib, empty_msg}

-- `item`
pub record Item : Type 0 where
  pub rcode : ℕ
  pub authoritative : Bool
  pub authenticated_data : Bool
  pub recursion_available : Bool
  pub answer : List Rr
  pub ns : List Rr
  pub extra : List Rr

-- `Query`
pub record Query (R : Type 0) : Type 0 where
  pub item : Item
  pub rate_limit : R
  pub update_time : ℕ

-- `QueryCache`
pub record QueryCache (R : Type 0) : Type 0 where
  pub shards : Shards (Query R)
  pub rate : ℕ

-- The loops of `Get` over the records of a section: each is aged, and one whose TTL is less than
-- the age stops the loop.
unfoldable pub age_records : ℕ → List Rr → Option (List Rr)
age_records e [] = some []
age_records e (r ∷ rs) =
    if ltb r.ttl e
    then none
    else (age_records e rs >>= λ rest. some (record r { ttl = r.ttl - e } ∷ rest))

-- `Get` from the reading of the clock to the end of its loops.
unfoldable pub refresh : {R : Type 0} → ℕ → Query R → Option (Query R)
unfolding age_records
refresh now q =
    let e = elapsed now q.update_time in
    do
      answer ← age_records e q.item.answer
      ns ← age_records e q.item.ns
      some (record q { item = record q.item { answer = answer; ns = ns }; update_time = now })

module _ (lib : MsgLib) where
  -- `newItem`
  unfoldable pub new_item : Msg → Item
  new_item m = record {
    rcode = m.rcode;
    authoritative = m.authoritative;
    authenticated_data = m.authenticated_data;
    recursion_available = m.recursion_available;
    answer = map lib.copy m.answer;
    ns = map lib.copy m.ns;
    extra = map lib.copy m.extra;
  }

  -- `toMsg`
  unfoldable pub to_msg : Item → Msg → Msg
  to_msg i m = record (lib.set_reply empty_msg m) {
    authoritative = false;
    authenticated_data = i.authenticated_data;
    recursion_available = i.recursion_available;
    rcode = i.rcode;
    answer = map lib.copy i.answer;
    ns = map lib.copy i.ns;
    extra = map lib.copy i.extra;
  }

-- `Remove`
unfoldable pub remove : {R : Type 0} → ℕ → QueryCache R → QueryCache R
remove key c = record c { shards = Sharded.remove key c.shards }

-- `Len`
unfoldable pub len : {R : Type 0} → QueryCache R → ℕ
len c = Sharded.len c.shards

-- `NewQueryCache`
unfoldable pub new_query_cache : (R : Type 0) → ℕ → ℕ → QueryCache R
new_query_cache R size rate = record { shards = Sharded.new_shards size; rate = rate }

module _ (lib : MsgLib) {R : Type 0} where
  -- `Get`, at the time of its call; the entry that is read is aged in place.
  unfoldable pub get : ℕ → ℕ → Msg → QueryCache R → QueryCache R × Result (Msg × R)
  unfolding remove
  get now key req c = elim (Sharded.get key c.shards) [
    | none ↦ (c, err not_found)
    | some q ↦ elim (refresh (truncate now) q) [
      | none ↦ (remove key c, err expired)
      | some q' ↦ (
        record c { shards = Sharded.write key q' c.shards },
        ok (to_msg lib q'.item req, q'.rate_limit),
      )
    ]
  ]

  -- `Set`, at the time of its call; the limiter allows `rate` calls a second.
  unfoldable pub set : (ℕ → ℕ → R) → ℕ → ℕ → ℕ → Msg → QueryCache R → QueryCache R
  set new_limiter pick now key msg c =
      let q : Query R = record {
        item = new_item lib msg;
        rate_limit = new_limiter c.rate (10 ^ 9);
        update_time = truncate now;
      } in
      record c { shards = Sharded.set pick key q c.shards }
