-- ===== src/Records/Random.antt =====
-- The random helpers of utils.go. What the generator draws is a parameter; `none` is a panic.
pub mod Draws
use sdns.Base.{
  ℕ, ◌+◌, ◌-◌, ◌==◌, Bool, List, [], ◌∷◌, Bytes, Option, none, some, if◌then◌else◌, ◌>>=◌,
  get_elem?, length, ltb,
}
use sdns.Dns.{Rr}
use sdns.Handler.Env.{Proto, https}
use sdns.Records.{is_empty}

-- `randInt`; `rand.Intn` panics where it has nothing to draw from
unfoldable pub rand_int : (ℕ → ℕ) → ℕ → ℕ → Option ℕ
rand_int intn min max =
    if min == max then some min else if ltb min max then some (intn (max - min) + min) else none

-- The loop of `shuffleRR` and of `shuffleStr`, over the indices that `rand.Perm` gives.
unfoldable pub shuffle {ℓ} : {A : Type ℓ} → List ℕ → List A → Option (List A)
shuffle [] vals = some []
shuffle (index ∷ perm) vals =
    get_elem? vals index >>= λ v. shuffle perm vals >>= λ ret. some (v ∷ ret)

abbrev pub shuffle_rr : List ℕ → List Rr → Option (List Rr)
shuffle_rr = shuffle

abbrev pub shuffle_str : List ℕ → List Bytes → Option (List Bytes)
shuffle_str = shuffle

-- The local address that `lookup` (resolver.go) gives to its client, if any, out of `OutboundIPs`. The
-- exchange of the client is a parameter of the resolver, with the address that the client has.
unfoldable pub local_address : (ℕ → ℕ) → List Bytes → Proto → Option (Option Bytes)
unfolding rand_int
local_address intn outbound_ips proto =
    if is_empty outbound_ips
    then some none
    else rand_int intn 0 (length outbound_ips) >>= λ index. elim proto [
      | https ↦ some none
      | _ ↦ get_elem? outbound_ips index >>= λ ip. some (some ip)
    ]
