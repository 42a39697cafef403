-- ===== src/Resolver/Glue/Closed.antt =====
-- The hosts of a delegation are closed names (resolver.go, `Resolve`).
use sdns.Base.{
  ◌≡◌, refl, Bool, true, false, not, ◌&&◌, List, [], ◌∷◌, Bytes, bytes_eq, bytes_eq_iff, bytes_Eq,
  to_lower, lower_byte, Option, some, arith, Bool-cases, Option-cases, inl, inr,
}
use sdns.Base.Map
use sdns.Dns.{Rr}
use sdns.Records.{is_empty}
use sdns.Resolver.Glue.{Glue, direct, filled, as_ns, as_a, ns_hosts, fill, auth_servers}
use sdns.Resolver.Network.{is_closed, closed_hosts, closed_target}
use sdns.Resolver.Zones.Closest.{IsClosed}

-- every host of the map is a closed name
unfoldable pub keys_closed : List (Bytes × Bytes) → Bool
keys_closed [] = true
keys_closed ((host, addr) ∷ nsmap) = is_closed host && keys_closed nsmap

is_closed-to_lower : (s : Bytes) → is_closed s ≡ true → is_closed (to_lower s) ≡ true
unfolding is_closed to_lower lower_byte
is_closed-to_lower [] h = h
is_closed-to_lower (c ∷ []) h = ground arith
is_closed-to_lower (c ∷ d ∷ s) h = is_closed-to_lower (d ∷ s) h

-- the two forms of a closed name
pub IsClosed-of_is_closed : (s : Bytes) → is_closed s ≡ true → IsClosed s
unfolding is_closed
IsClosed-of_is_closed [] h = absurd (ground arith)
IsClosed-of_is_closed (c ∷ []) h = ([], ground arith)
IsClosed-of_is_closed (c ∷ d ∷ s) h =
    let (t, e) = IsClosed-of_is_closed (d ∷ s) h in (c ∷ t, ground arith)

keys_closed-insert :
    (host addr : Bytes) (nsmap : List (Bytes × Bytes))
    → is_closed host ≡ true
    → keys_closed nsmap ≡ true
    → keys_closed (Map.insert host addr nsmap) ≡ true
unfolding keys_closed Map.insert
keys_closed-insert host addr [] h k = ground arith
keys_closed-insert host addr ((j, w) ∷ nsmap) h k =
    ground (arith, keys_closed-insert host addr nsmap h)

is_closed_of_has :
    (host : Bytes) (nsmap : List (Bytes × Bytes))
    → Map.has host nsmap ≡ true
    → keys_closed nsmap ≡ true
    → is_closed host ≡ true
unfolding keys_closed Map.lookup
is_closed_of_has host [] h k = ground arith
is_closed_of_has host ((j, w) ∷ nsmap) h k =
    ground (arith, bytes_eq_iff j host, is_closed_of_has host nsmap)

-- the map that the authority section gives
pub ns_hosts_closed :
    (nsrr : Option Rr) (nsmap : List (Bytes × Bytes)) (ns : List Rr)
    → keys_closed nsmap ≡ true
    → closed_hosts ns ≡ true
    → keys_closed (ns_hosts nsrr nsmap ns).1 ≡ true
unfolding ns_hosts closed_hosts
ns_hosts_closed nsrr nsmap [] h k = h
ns_hosts_closed nsrr nsmap (n ∷ ns) h k = elim (Option-cases (as_ns n)) [
  | inl e ↦ rw (e, ns_hosts) (ns_hosts_closed nsrr nsmap ns h (ground arith))
  | inr (host, e) ↦
      rw (e, ns_hosts)
        (ns_hosts_closed (some n) (Map.insert (to_lower host) [] nsmap) ns
          (keys_closed-insert (to_lower host) [] nsmap (is_closed-to_lower host (ground arith)) h)
          (ground arith))
]

-- an address record has no target
as_a_closed : (r : Rr) (addr : Bytes) → as_a r ≡ some addr → closed_target r.rdata ≡ true
as_a_closed r addr e = ground arith

-- the map that the additional section fills, or the address record in it
abbrev pub filled_closed : Glue → Bool
filled_closed (direct r) = closed_target r.rdata
filled_closed (filled nsmap) = keys_closed nsmap

pub fill_closed :
    (nsl : Bool) (name : Bytes) (nsmap : List (Bytes × Bytes)) (rs : List Rr)
    → keys_closed nsmap ≡ true
    → filled_closed (fill nsl name nsmap rs) ≡ true
unfolding fill
fill_closed nsl name nsmap [] h = h
fill_closed nsl name nsmap (r ∷ rs) h = elim (Option-cases (as_a r)) [
  | inl e ↦ rw (e, fill) (fill_closed nsl name nsmap rs h)
  | inr (addr, e) ↦
      let host = to_lower r.name in
      elim (Bool-cases (nsl && bytes_eq host (to_lower name) && not (is_empty addr))) [
        | inl f ↦ rw (e, fill, f) (as_a_closed r addr e)
        | inr f ↦ elim (Bool-cases (Map.has host nsmap)) [
          | inl g ↦
              rw (e, fill, f, g)
                (fill_closed nsl name (Map.insert host addr nsmap) rs
                  (keys_closed-insert host addr nsmap (is_closed_of_has host nsmap g h) h))
          | inr g ↦ rw (e, fill, f, g) (fill_closed nsl name nsmap rs h)
        ]
      ]
]

pub auth_servers_nonempty :
    (hosts : List Bytes) → is_empty hosts ≡ false → is_empty (auth_servers hosts).list ≡ false
unfolding auth_servers
auth_servers_nonempty [] h = h
auth_servers_nonempty (a ∷ hosts) h = refl
