-- ===== src/Dnssec/Keys/Anchors.antt =====
-- When a key set is anchored in the parent zone, and which RSA keys are refused (utils.go).
use sdns.Base.{
  ℕ, ◌*◌, ◌+◌, ◌≤◌, ◌≡◌, ◌↔◌, ◌⊎◌, refl, Bool, true, false, ◌||◌, ◌==◌, List, [], ◌∷◌, Bytes,
  bytes_eq, Option, none, some, if◌then◌else◌, length, get_or, nat_eq, arith,
}
use sdns.Base.Map
use sdns.Dns.{Rr, Ds, Dnskey, as_ds}
use sdns.Dnssec.Errors.{missing_ksk}
use sdns.Dnssec.Keys.{ToDs, verify_ds, check_exponent}

module _ (to_ds : ToDs) (keys : List (ℕ × Dnskey)) where
  abbrev digest_matches : Ds → Option Ds → Bool
  digest_matches parent none = false
  digest_matches parent (some ds) = bytes_eq ds.digest parent.digest

  abbrev key_matches : Ds → Option Dnskey → Bool
  key_matches parent none = false
  key_matches parent (some ksk) = digest_matches parent (to_ds ksk parent.digest_type)

  abbrev ds_matches : Option Ds → Bool
  ds_matches none = false
  ds_matches (some parent) = key_matches parent (Map.lookup parent.key_tag keys)

  -- some DS record of the list has the digest of the key with its tag
  abbrev pub any_anchored : List Rr → Bool
  any_anchored [] = false
  any_anchored (r ∷ rs) = ds_matches (as_ds r) || any_anchored rs

  verify_ds_step :
      (r : Rr) (rs : List Rr)
      → (verify_ds to_ds keys (r ∷ rs) ≡ none)
        ↔ ((ds_matches (as_ds r) ≡ true) ⊎ (verify_ds to_ds keys rs ≡ none))
  unfolding verify_ds
  verify_ds_step r [] = ground arith
  verify_ds_step r (r' ∷ rs) = ground arith

  -- `verifyDS` succeeds exactly when some DS record of the parent has the digest of the key with its
  -- tag; records of other types, unknown tags and digests that cannot be computed do not matter.
  pub verify_ds_iff : (rs : List Rr) → (verify_ds to_ds keys rs ≡ none) ↔ (any_anchored rs ≡ true)
  unfolding verify_ds
  verify_ds_iff [] = ground arith
  verify_ds_iff (r ∷ rs) = ground (arith, verify_ds_step r rs, verify_ds_iff rs)

  -- An empty list of DS records is an error.
  pub verify_ds_empty : verify_ds to_ds keys [] ≡ some missing_ksk
  unfolding verify_ds
  verify_ds_empty = refl

-- the exponent's length as the key writes it
pub exponent_length : Bytes → ℕ
exponent_length keybuf =
    if get_or keybuf 0 0 == 0
    then get_or keybuf 1 0 * 256 + get_or keybuf 2 0
    else get_or keybuf 0 0

-- A key that decodes to 66 bytes or more is accepted exactly when its exponent has 1 to 4 bytes and
-- does not begin with a zero byte.
pub check_exponent_iff :
    (keybuf : Bytes)
    → 66 ≤ length keybuf
    → (check_exponent (some keybuf) ≡ true) ↔ (
        (1 ≤ exponent_length keybuf)
        × (exponent_length keybuf ≤ 4)
        × ((get_or keybuf (if get_or keybuf 0 0 == 0 then 3 else 1) 0 == 0) ≡ false))
unfolding check_exponent exponent_length
check_exponent_iff keybuf h = ground arith
