-- ===== src/Records.antt =====
-- The helpers of utils.go that search names, addresses and sections of records.
pub mod Sections
pub mod Random
use sdns.Base.{
  ℕ, Bool, true, false, not, ◌&&◌, ◌||◌, ◌==◌, List, [], ◌∷◌, ◌++◌, Bytes, bytes_eq, to_lower,
  Option, none, some, if◌then◌else◌,
}
use sdns.Dns.{Rr, Rdata, Msg}

-- `upperName`: the name after its first dot
unfoldable pub upper_name_from : Bytes → Bytes → Bytes
upper_name_from whole [] = whole
upper_name_from whole (c ∷ rest) = if c == b'.' then rest else upper_name_from whole rest

unfoldable pub upper_name : Bytes → Bytes
unfolding upper_name_from
upper_name s = upper_name_from s s

-- `searchAddr`: the address of the first A record
unfoldable pub search_addr_in : List Rr → Option Bytes
search_addr_in [] = none
search_addr_in (r ∷ rs) = elim r.rdata [ Rdata.a addr ↦ some addr | _ ↦ search_addr_in rs ]

unfoldable pub search_addr : Msg → Option Bytes
unfolding search_addr_in
search_addr msg = search_addr_in msg.answer

-- `isLocalIP`
unfoldable pub is_local_ip : List Bytes → Bytes → Bool
is_local_ip [] ip = false
is_local_ip (lip ∷ lips) ip = bytes_eq lip ip || is_local_ip lips ip

-- membership in the set of types that `extractRRSet` and `typesSet` build
unfoldable pub mem_types : ℕ → List ℕ → Bool
mem_types t [] = false
mem_types t (u ∷ us) = u == t || mem_types t us

abbrev pub is_empty {ℓ} : {A : Type ℓ} → List A → Bool
is_empty [] = true
is_empty (x ∷ xs) = false

-- `extractRRSet`
unfoldable pub extract_rr_set : List Rr → Bytes → List ℕ → List Rr
unfolding mem_types
extract_rr_set [] name types = []
extract_rr_set (r ∷ rs) name types =
    let rest = extract_rr_set rs name types in
    if mem_types r.rrtype types
    then (if not (is_empty name) && not (bytes_eq name (to_lower r.name)) then rest else r ∷ rest)
    else rest

-- the case of the type switch in `clearOPT`
abbrev pub is_opt : Rr → Bool
is_opt r = elim r.rdata [ Rdata.opt codes ↦ true | _ ↦ false ]

-- the cases of the type switches in `clearDNSSEC`
abbrev pub is_dnssec : Rr → Bool
is_dnssec r = elim r.rdata [
  | Rdata.rrsig covered tag signer signature ↦ true
  | Rdata.nsec types ↦ true
  | Rdata.nsec3 flags types hashes ↦ true
  | _ ↦ false
]

-- the loops of `clearOPT` and `clearDNSSEC`, which append to `out` what the switch does not drop
unfoldable pub drop_into : (Rr → Bool) → List Rr → List Rr → List Rr
drop_into p out [] = out
drop_into p out (r ∷ rs) = drop_into p (if p r then out else out ++ r ∷ []) rs

-- `clearOPT`
unfoldable pub clear_opt : Msg → Msg
unfolding drop_into
clear_opt msg = record msg { extra = drop_into is_opt [] msg.extra }

-- `clearDNSSEC`
unfoldable pub clear_dnssec : Msg → Msg
unfolding drop_into
clear_dnssec msg = record msg {
  answer = drop_into is_dnssec [] msg.answer;
  ns = drop_into is_dnssec [] msg.ns;
}
