-- ===== src/Resolver/Roots.antt =====
-- resolver.go: the keys of the root zone, and the root servers. `none` is a panic.
use sdns.Base.{
  ℕ, Bool, true, false, is_some, ◌&&◌, ◌||◌, ◌==◌, List, [], ◌∷◌, Option, none, some, if◌then◌else◌,
  nat_eq,
}
use sdns.Base.Map
use sdns.Dns.{Rr, Rdata, Dnskey, Ds, Msg, as_dnskey, type_ds}
use sdns.Dnssec.Keys.{ToDs, verify_ds}
use sdns.Dnssec.Signatures.{SigLib, verify_rrsig}
use sdns.Records.{is_empty}

-- `dns.RSASHA1`, as the digest type that `ToDS` is asked for
abbrev pub rsa_sha1 : ℕ
rsa_sha1 = 5

-- The DS record that `ToDS` gives. For a key that does not pack, such as one whose public key is not
-- base64, it is a nil pointer.
abbrev pub ds_record : Dnskey → Option Ds → Rr
ds_record k none = record {
  name = [];
  rrtype = type_ds;
  rrclass = 0;
  ttl = 0;
  rdata = Rdata.nil_ds;
}
ds_record k (some ds) = record {
  name = ds.owner;
  rrtype = type_ds;
  rrclass = 0;
  ttl = 0;
  rdata = Rdata.ds ds.key_tag ds.digest_type ds.digest;
}

abbrev is_nil : Rr → Bool
is_nil r = elim r.rdata [ Rdata.nil_ds ↦ true | _ ↦ false ]

-- the loop of `dsRRFromRootKeys` and of `verifyRootKeys` over the configured keys
unfoldable pub ds_set : ToDs → List Rr → List Rr
ds_set to_ds [] = []
ds_set to_ds (a ∷ rest) =
    let later = ds_set to_ds rest in
    elim (as_dnskey a) [ none ↦ later | some k ↦ ds_record k (to_ds k rsa_sha1) ∷ later ]

-- `dsRRFromRootKeys`
unfoldable pub ds_rr_from_root_keys : ToDs → List Rr → Option (List Rr)
unfolding ds_set
ds_rr_from_root_keys to_ds rootkeys =
    if is_empty (ds_set to_ds rootkeys) then none else some (ds_set to_ds rootkeys)

-- the keys of a message by their tags: those with the flags of a zone key
unfoldable pub zone_keys : (Dnskey → ℕ) → List (ℕ × Dnskey) → List Rr → List (ℕ × Dnskey)
zone_keys key_tag keys [] = keys
zone_keys key_tag keys (a ∷ rest) = elim (as_dnskey a) [
  | none ↦ zone_keys key_tag keys rest
  | some k ↦
      zone_keys key_tag
        (if k.flags == 256 || k.flags == 257 then Map.insert (key_tag k) k keys else keys) rest
]

-- whether the loop of `verifyDS` comes to a nil pointer, where it panics
unfoldable pub meets_nil : ToDs → List (ℕ × Dnskey) → List Rr → Bool
meets_nil to_ds keys [] = false
meets_nil to_ds keys (r ∷ rest) =
    let later = meets_nil to_ds keys rest in
    is_nil r || (is_some (verify_ds to_ds keys (r ∷ [])) && later)

-- whether the first record is a nil pointer, whose header cannot be read
abbrev pub starts_nil : List Rr → Bool
starts_nil [] = false
starts_nil (r ∷ rest) = is_nil r

-- `verifyRootKeys`: it returns true, or panics
unfoldable pub verify_root_keys : ToDs → (Dnskey → ℕ) → SigLib → List Rr → Msg → Option Bool
unfolding ds_set zone_keys
verify_root_keys to_ds key_tag lib rootkeys msg =
    let keys = zone_keys key_tag [] msg.answer in
    let dsset = ds_set to_ds rootkeys in
    if is_empty keys || is_empty dsset || meets_nil to_ds keys dsset
    then none
    else elim (verify_ds to_ds keys dsset) [
      | some e ↦ none
      | none ↦ elim (verify_rrsig lib keys msg).1 [ some e ↦ none | none ↦ some true ]
    ]
