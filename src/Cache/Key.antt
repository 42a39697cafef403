-- ===== src/Cache/Key.antt =====
-- cache/hash.go: the key of a question. `hash/fnv`'s FNV-1 with 64 bits runs over the type, a byte
-- for a set CD flag, and the name in lower case. Go's `range` over the name visits the first byte of
-- each character in UTF-8, and each byte that belongs to none.
pub mod Injectivity
use Prim.Native.Nat.{bit_xor}
use sdns.Base.{
  ℕ, zero, suc, leb, ◌==◌, ◌&&◌, false, ◌*◌, ◌/◌, ◌%◌, ◌^◌, Bool, List, [], ◌∷◌, ◌++◌, Bytes,
  if◌then◌else◌, to_lower, lower_byte,
}
use sdns.Dns.{Question}

-- the second byte that a first byte of three or four allows
abbrev is_second : ℕ → ℕ → Bool
is_second c d =
    leb (if c == 224 then 160 else if c == 240 then 144 else 128) d
    && leb d (if c == 237 then 159 else if c == 244 then 143 else 191)

abbrev is_next : ℕ → Bool
is_next d = leb 128 d && leb d 191

abbrev starts_next : Bytes → Bool
starts_next [] = false
starts_next (d ∷ s) = is_next d

abbrev tail : Bytes → Bytes
tail [] = []
tail (d ∷ s) = s

-- how many bytes of a character follow its first one
unfoldable pub continuation : ℕ → Bytes → ℕ
continuation c [] = 0
continuation c (d ∷ s) =
    if leb 194 c && leb c 223 && is_next d
    then 1
    else if leb 224 c && leb c 239 && is_second c d && starts_next s
    then 2
    else if leb 240 c && leb c 244 && is_second c d && starts_next s && starts_next (tail s)
    then 3
    else 0

-- the bytes at the indices of `range`, after those that are passed over
unfoldable pub range_bytes : ℕ → Bytes → Bytes
unfolding continuation
range_bytes skip [] = []
range_bytes zero (c ∷ s) = c ∷ range_bytes (continuation c s) s
range_bytes (suc skip) (c ∷ s) = range_bytes skip s

-- the bytes that are hashed: `binary.BigEndian` for the type
unfoldable pub key_bytes : Question → Bool → Bytes
unfolding range_bytes
key_bytes q cd =
    (q.qtype / 256 % 256)
    ∷ (q.qtype % 256)
    ∷ ((if cd then 1 ∷ [] else []) ++ to_lower (range_bytes 0 q.name))

-- `fnv.New64`: multiply, then exclusive or
unfoldable pub fnv1 : ℕ → Bytes → ℕ
fnv1 h [] = h
fnv1 h (b ∷ bs) = fnv1 (bit_xor (h * 1099511628211 % 2 ^ 64) b) bs

-- `Hash`; an absent flag is `false`
unfoldable pub hash : Question → Bool → ℕ
unfolding key_bytes fnv1
hash q cd = fnv1 14695981039346656037 (key_bytes q cd)
