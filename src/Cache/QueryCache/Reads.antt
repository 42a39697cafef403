-- ===== src/Cache/QueryCache/Reads.antt =====
-- What a cached answer gives, and for how long (cache/query_cache.go).
use sdns.Base.{
  ℕ, ◌-◌, ◌^◌, ◌≤◌, ◌<◌, ◌≡◌, refl, Bool, true, false, List, [], ◌∷◌, map, none, some,
  if◌then◌else◌, ◌&&◌, arith, ◌∙◌, ap, sym, Option, inl, inr, Option-cases, Bool-cases, nat_eq,
  ==_refl,
}
use sdns.Cache.Clock.{truncate, elapsed_exact}
use sdns.Cache.Outcome.{Result, ok, err, expired}
use sdns.Cache.Sharded
use sdns.Cache.Sharded.Laws
use sdns.Cache.QueryCache.{QueryCache, Query, refresh, new_item, to_msg, new_query_cache, get, set}
use sdns.Cache.QueryCache.Aging.{alive, decay, refresh-eq-decay, refresh-refresh}
use sdns.Dns.{Rr, Msg, MsgLib, empty_msg}

abbrev pub IsValid : {R : Type 0} → QueryCache R → Type 0
IsValid c = Laws.IsValid c.shards

abbrev pub is_ok {ℓ} : {A : Type ℓ} → Result A → Bool
is_ok (ok a) = true
is_ok (err e) = false

pub new_query_cache-IsValid : (R : Type 0) (size rate : ℕ) → IsValid (new_query_cache R size rate)
unfolding new_query_cache
new_query_cache-IsValid R size rate = Laws.new_shards-IsValid size

module _ (lib : MsgLib) where
  pub map-copy : (rs : List Rr) → map lib.copy rs ≡ rs
  map-copy [] = refl
  map-copy (r ∷ rs) = ground (arith, lib.copy_eq r, map-copy rs)

  -- the reply to `req` from `msg`, stored `e` seconds ago
  pub served : ℕ → Msg → Msg → Msg
  served e msg req = record (lib.set_reply empty_msg req) {
    authoritative = false;
    authenticated_data = msg.authenticated_data;
    recursion_available = msg.recursion_available;
    rcode = msg.rcode;
    answer = map (decay e) msg.answer;
    ns = map (decay e) msg.ns;
    extra = msg.extra;
  }

  new_item_sections :
      (msg : Msg) → ((new_item lib msg).answer ≡ msg.answer) × ((new_item lib msg).ns ≡ msg.ns)
  unfolding new_item
  new_item_sections msg = (map-copy msg.answer, map-copy msg.ns)

  to_msg-eq-served :
      (e : ℕ) (msg req : Msg)
      → to_msg lib
          (record (new_item lib msg) {
            answer = map (decay e) msg.answer;
            ns = map (decay e) msg.ns;
          })
          req
        ≡ served e msg req
  unfolding to_msg new_item served
  to_msg-eq-served e msg req = simp map-copy

module _ (lib : MsgLib) {R : Type 0} where
  pub set-IsValid :
      (new_limiter : ℕ → ℕ → R) (pick now key : ℕ) (msg : Msg) (c : QueryCache R)
      → IsValid c
      → IsValid (set lib new_limiter pick now key msg c)
  unfolding set
  set-IsValid new_limiter pick now key msg c h = Laws.set-IsValid pick key _ h

  pub get-IsValid :
      (now key : ℕ) (req : Msg) (c : QueryCache R) → IsValid c → IsValid (get lib now key req c).0
  unfolding get
  get-IsValid now key req c h = elim (Option-cases (Sharded.get key c.shards)) [
    | inl e ↦ rw (e, get) h
    | inr (q, e) ↦ elim (Option-cases (refresh (truncate now) q)) [
      | inl f ↦ rw (e, get) (rw f (Laws.remove-IsValid key h))
      | inr (q', f) ↦ rw (e, get) (rw f (Laws.write-IsValid key q' (rw e) h))
    ]
  ]

  -- the result of `Get` from the refreshed entry
  abbrev response : Msg → Option (Query R) → Result (Msg × R)
  response req none = err expired
  response req (some q) = ok (to_msg lib q.item req, q.rate_limit)

  get_found :
      (now key : ℕ) (req : Msg) (q : Query R) (c : QueryCache R)
      → Sharded.get key c.shards ≡ some q
      → (get lib now key req c).1 ≡ response req (refresh (truncate now) q)
  unfolding get
  get_found now key req q c found = elim (Option-cases (refresh (truncate now) q)) [
    | inl f ↦ rw (found, get) (rw f refl)
    | inr (q', f) ↦ rw (found, get) (rw f refl)
  ]

  get_refreshed :
      (now key : ℕ) (req : Msg) (q q' : Query R) (c : QueryCache R)
      → Sharded.get key c.shards ≡ some q
      → refresh (truncate now) q ≡ some q'
      → Sharded.get key (get lib now key req c).0.shards ≡ some q'
  unfolding get
  get_refreshed now key req q q' c found f =
      rw (found, get) (rw f (rw (Laws.get-write key key q' c.shards, ==_refl key) refl))

  -- In a valid cache, what was stored is served less than 2 ^ 32 seconds later with the TTLs of its
  -- answer and authority lowered by its age, as long as none of them is below that age; otherwise
  -- the lookup finds it expired.
  pub get-set_answer :
      (new_limiter : ℕ → ℕ → R) (pick stored now key : ℕ) (msg req : Msg) (c : QueryCache R)
      → IsValid c
      → truncate stored ≤ truncate now
      → truncate now - truncate stored < 2 ^ 32
      → let e = truncate now - truncate stored in
        (get lib now key req (set lib new_limiter pick stored key msg c)).1 ≡ (
          if alive e msg.answer && alive e msg.ns
          then ok (served lib e msg req, new_limiter c.rate (10 ^ 9))
          else err expired)
  unfolding set
  get-set_answer new_limiter pick stored now key msg req c h le fits =
      let q : Query R = record {
        item = new_item lib msg;
        rate_limit = new_limiter c.rate (10 ^ 9);
        update_time = truncate stored;
      } in
      let e = truncate now - truncate stored in
      rw
        (
          get_found now key req q (set lib new_limiter pick stored key msg c)
              (Laws.get-set_self pick key q h),
          refresh-eq-decay (truncate now) e q
              (elapsed_exact (truncate now) (truncate stored) le fits),
          (new_item_sections lib msg).0,
          (new_item_sections lib msg).1,
        )
        (elim (Bool-cases (alive e msg.answer && alive e msg.ns)) [
          | inl live ↦ rw live (ap (λ m. ok (m, q.rate_limit)) (to_msg-eq-served lib e msg req))
          | inr old ↦ rw old
        ])

  -- A hit changes nothing that a later lookup of the same key can see, for an entry whose last
  -- reading is less than 2 ^ 32 seconds ago: its records age by the clock alone.
  pub get-get_answer :
      (t u key : ℕ) (req req' : Msg) (q : Query R) (c : QueryCache R)
      → Sharded.get key c.shards ≡ some q
      → q.update_time ≤ truncate t
      → truncate t ≤ truncate u
      → truncate u - q.update_time < 2 ^ 32
      → is_ok (get lib t key req c).1 ≡ true
      → (get lib u key req' (get lib t key req c).0).1 ≡ (get lib u key req' c).1
  unfolding get
  get-get_answer t u key req req' q c found le le' fits hit =
      elim (Option-cases (refresh (truncate t) q)) [
        | inl f ↦ cc (get_found t key req q c found, f, hit)
        | inr (q', f) ↦
            get_found u key req' q' _ (get_refreshed t key req q q' c found f)
            ∙ ap (response req') (refresh-refresh (truncate t) (truncate u) q le le' fits f)
            ∙ sym (get_found u key req' q c found)
      ]
