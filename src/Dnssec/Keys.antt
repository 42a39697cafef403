-- ===== src/Dnssec/Keys.antt =====
-- utils.go: the DS check `verifyDS` and the key check `checkExponent`. The library's `ToDS` is a
-- parameter, and so is the decoding of base64.
pub mod Anchors
use sdns.Base.{
  ℕ, ◌*◌, ◌+◌, Bool, true, false, not, ◌||◌, ◌==◌, List, [], ◌∷◌, Bytes, bytes_eq, Option, none,
  some, if◌then◌else◌, length, ltb, get_or, nat_eq,
}
use sdns.Base.Map
use sdns.Dns.{Rr, Ds, Dnskey, as_ds}
use sdns.Dnssec.Errors.{SecError, missing_ksk, failed_to_convert_ksk, mismatching_ds}
use sdns.Records.{is_empty}

-- `DNSKEY.ToDS` for a digest type
abbrev pub ToDs : Type 0
ToDs = Dnskey → ℕ → Option Ds

-- `verifyDS`: the loop over the DS records of the parent
unfoldable pub verify_ds : ToDs → List (ℕ × Dnskey) → List Rr → Option SecError
verify_ds to_ds keys [] = some missing_ksk
verify_ds to_ds keys (r ∷ rest) =
    let later = verify_ds to_ds keys rest in
    elim (as_ds r) [
      | none ↦ later
      | some parent ↦ elim (Map.lookup parent.key_tag keys) [
        | none ↦ later
        | some ksk ↦ elim (to_ds ksk parent.digest_type) [
          | none ↦ if not (is_empty rest) then later else some failed_to_convert_ksk
          | some ds ↦
              if not (bytes_eq ds.digest parent.digest)
              then (if not (is_empty rest) then later else some mismatching_ds)
              else none
        ]
      ]
    ]

-- `checkExponent` on the result of `fromBase64`, `none` for its error
unfoldable pub check_exponent : Option Bytes → Bool
check_exponent none = true
check_exponent (some keybuf) =
    if ltb (length keybuf) (1 + 1 + 64)
    then true
    else (let first = get_or keybuf 0 0 in
        let long = get_or keybuf 1 0 * 256 + get_or keybuf 2 0 in
        let explen = if first == 0 then long else first in
        let keyoff : ℕ = if first == 0 then 3 else 1 in
        if ltb 4 explen || explen == 0 || get_or keybuf keyoff 0 == 0 then false else true)
