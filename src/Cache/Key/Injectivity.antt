-- ===== src/Cache/Key/Injectivity.antt =====
-- Which questions share a key (cache/hash.go).
use sdns.Base.{
  ℕ, ◌/◌, ◌%◌, ◌<◌, ◌^◌, ◌≡◌, ◌≢◌, ◌↔◌, refl, Bool, true, false, [], ◌∷◌, ◌++◌, Bytes, to_lower,
  lower_byte, if◌then◌else◌, arith, ltb, ◌&&◌, leb, ap,
}
use sdns.Cache.Key.{continuation, range_bytes, key_bytes, hash}
use sdns.Dns.{Question}

abbrev pub is_ascii : Bytes → Bool
is_ascii [] = true
is_ascii (c ∷ s) = ltb c 128 && is_ascii s

continuation_ascii : (c : ℕ) (s : Bytes) → c < 128 → continuation c s ≡ 0
unfolding continuation
continuation_ascii c [] h = refl
continuation_ascii c (d ∷ s) h =
    let low : leb 194 c ≡ false = ground arith in
    let mid : leb 224 c ≡ false = ground arith in
    let high : leb 240 c ≡ false = ground arith in rw (low, mid, high) refl

range_bytes_ascii : (s : Bytes) → is_ascii s ≡ true → range_bytes 0 s ≡ s
unfolding range_bytes
range_bytes_ascii [] h = refl
range_bytes_ascii (c ∷ s) h =
    rw (continuation_ascii c s (ground arith))
      (ap (λ rest. c ∷ rest) (range_bytes_ascii s (ground arith)))

-- The case of the letters of ASCII names does not matter.
pub hash-to_lower :
    (q r : Question) (cd : Bool)
    → is_ascii q.name ≡ true
    → is_ascii r.name ≡ true
    → q.qtype ≡ r.qtype
    → to_lower q.name ≡ to_lower r.name
    → hash q cd ≡ hash r cd
unfolding hash key_bytes
hash-to_lower q r cd aq ar t n = rw (range_bytes_ascii q.name aq, range_bytes_ascii r.name ar, t, n)

-- Nor does the class: questions of different classes share a key.
pub hash_ignores_class :
    (q : Question) (cd : Bool) (qclass : ℕ) → hash (record q { qclass = qclass }) cd ≡ hash q cd
unfolding hash key_bytes
hash_ignores_class q cd qclass = refl

-- a name that does not begin with the byte that marks the CD flag
abbrev pub IsPlain : Bytes → Type 0
IsPlain [] = Unit
IsPlain (b ∷ bs) = b ≢ 1

plain_lower : (s t : Bytes) → IsPlain s → to_lower s ≢ 1 ∷ t
unfolding to_lower lower_byte
plain_lower [] t h e = cc
plain_lower (b ∷ s) t h e = ground arith

flag_and_name :
    (cd cd' : Bool) (s s' : Bytes)
    → IsPlain s
    → IsPlain s'
    → (if cd then 1 ∷ [] else []) ++ to_lower s ≡ (if cd' then 1 ∷ [] else []) ++ to_lower s'
    → (cd ≡ cd') × (to_lower s ≡ to_lower s')
flag_and_name true true s s' p p' e = (refl, cc)
flag_and_name true false s s' p p' e = absurd (plain_lower s' (to_lower s) p' (cc))
flag_and_name false true s s' p p' e = absurd (plain_lower s (to_lower s') p e)
flag_and_name false false s s' p p' e = (refl, e)

-- The hashed bytes tell questions apart: they agree exactly for the same type, flag and name up to
-- case, for types of 16 bits and ASCII names that do not begin with the byte 1.
pub key_bytes-injective :
    (q r : Question) (cd cd' : Bool)
    → q.qtype < 2 ^ 16
    → r.qtype < 2 ^ 16
    → is_ascii q.name ≡ true
    → is_ascii r.name ≡ true
    → IsPlain q.name
    → IsPlain r.name
    → (key_bytes q cd ≡ key_bytes r cd')
      ↔ ((q.qtype ≡ r.qtype) × (cd ≡ cd') × (to_lower q.name ≡ to_lower r.name))
unfolding key_bytes
key_bytes-injective q r cd cd' hq hr aq ar pq pr =
    rw (range_bytes_ascii q.name aq, range_bytes_ascii r.name ar, key_bytes)
      (
        λ e.
            let high : q.qtype / 256 % 256 ≡ r.qtype / 256 % 256 = cc in
            let low : q.qtype % 256 ≡ r.qtype % 256 = cc in
            let rest = flag_and_name cd cd' q.name r.name pq pr (cc) in
            (omega arith, rest.0, rest.1),
        λ e. rw (e.0, e.1, e.2),
      )
