-- ===== src/Doh/Qtype.antt =====
-- doh/qtype.go: the type of a question from the text of a parameter.
pub mod Parsing
use sdns.Base.{
  ℕ, ◌+◌, ◌-◌, ◌*◌, ◌^◌, ◌%◌, ◌<◌, Bool, true, false, ◌&&◌, List, [], ◌∷◌, map, Bytes, codes,
  Option, none, some, if◌then◌else◌, leb, ltb, ◌==◌, bytes_Eq,
}
use sdns.Base.Map
use sdns.Dns.{type_a}

-- `dns.TypeNone`
abbrev pub type_none : ℕ
type_none = 0

-- the map `qtype`, in the order of the source
abbrev pub qtypes : List (Bytes × ℕ)
qtypes =
    (codes "A", 1)
    ∷ (codes "NS", 2)
    ∷ (codes "MD", 3)
    ∷ (codes "MF", 4)
    ∷ (codes "CNAME", 5)
    ∷ (codes "SOA", 6)
    ∷ (codes "MB", 7)
    ∷ (codes "MG", 8)
    ∷ (codes "MR", 9)
    ∷ (codes "NULL", 10)
    ∷ (codes "PTR", 12)
    ∷ (codes "HINFO", 13)
    ∷ (codes "MINFO", 14)
    ∷ (codes "MX", 15)
    ∷ (codes "TXT", 16)
    ∷ (codes "RP", 17)
    ∷ (codes "AFSDB", 18)
    ∷ (codes "X25", 19)
    ∷ (codes "ISDN", 20)
    ∷ (codes "RT", 21)
    ∷ (codes "NSAPPTR", 23)
    ∷ (codes "SIG", 24)
    ∷ (codes "KEY", 25)
    ∷ (codes "PX", 26)
    ∷ (codes "GPOS", 27)
    ∷ (codes "AAAA", 28)
    ∷ (codes "LOC", 29)
    ∷ (codes "NXT", 30)
    ∷ (codes "EID", 31)
    ∷ (codes "NIMLOC", 32)
    ∷ (codes "SRV", 33)
    ∷ (codes "ATMA", 34)
    ∷ (codes "NAPTR", 35)
    ∷ (codes "KX", 36)
    ∷ (codes "CERT", 37)
    ∷ (codes "DNAME", 39)
    ∷ (codes "OPT", 41)
    ∷ (codes "DS", 43)
    ∷ (codes "SSHFP", 44)
    ∷ (codes "RRSIG", 46)
    ∷ (codes "NSEC", 47)
    ∷ (codes "DNSKEY", 48)
    ∷ (codes "DHCID", 49)
    ∷ (codes "NSEC3", 50)
    ∷ (codes "NSEC3PARAM", 51)
    ∷ (codes "TLSA", 52)
    ∷ (codes "SMIMEA", 53)
    ∷ (codes "HIP", 55)
    ∷ (codes "NINFO", 56)
    ∷ (codes "RKEY", 57)
    ∷ (codes "TALINK", 58)
    ∷ (codes "CDS", 59)
    ∷ (codes "CDNSKEY", 60)
    ∷ (codes "OPENPGPKEY", 61)
    ∷ (codes "CSYNC", 62)
    ∷ (codes "SPF", 99)
    ∷ (codes "UINFO", 100)
    ∷ (codes "UIG", 101)
    ∷ (codes "GID", 102)
    ∷ (codes "UNSPEC", 103)
    ∷ (codes "NID", 104)
    ∷ (codes "L32", 105)
    ∷ (codes "L64", 106)
    ∷ (codes "LP", 107)
    ∷ (codes "EUI48", 108)
    ∷ (codes "EUI64", 109)
    ∷ (codes "URI", 256)
    ∷ (codes "CAA", 257)
    ∷ (codes "AVC", 258)
    ∷ (codes "TKEY", 249)
    ∷ (codes "TSIG", 250)
    ∷ (codes "IXFR", 251)
    ∷ (codes "AXFR", 252)
    ∷ (codes "MAILB", 253)
    ∷ (codes "MAILA", 254)
    ∷ (codes "ANY", 255)
    ∷ (codes "TA", 32768)
    ∷ (codes "DLV", 32769)
    ∷ (codes "RESERVED", 65535)
    ∷ []

-- `strings.ToUpper` on one byte of ASCII
unfoldable pub upper_byte : ℕ → ℕ
upper_byte c = if leb b'a' c && leb c b'z' then c - 32 else c

-- `strings.ToUpper`
unfoldable pub to_upper : Bytes → Bytes
unfolding upper_byte
to_upper s = map upper_byte s

-- the value of decimal digits
unfoldable pub digits_from : ℕ → Bytes → Option ℕ
digits_from acc [] = some acc
digits_from acc (c ∷ s) =
    if leb b'0' c && leb c b'9' then digits_from (acc * 10 + (c - b'0')) s else none

unfoldable pub digits : Bytes → Option ℕ
unfolding digits_from
digits [] = none
digits (c ∷ s) = digits_from 0 (c ∷ s)

-- a value that fits, with its sign
unfoldable pub in_range : Bool → Option ℕ → Option (Bool × ℕ)
in_range negative none = none
in_range negative (some n) =
    if ltb n (if negative then 2 ^ 63 + 1 else 2 ^ 63) then some (negative, n) else none

-- `strconv.Atoi`: whether the number is negative, and its absolute value
unfoldable pub atoi : Bytes → Option (Bool × ℕ)
unfolding digits in_range
atoi [] = none
atoi (c ∷ s) =
    if c == b'-'
    then in_range true (digits s)
    else if c == b'+'
    then in_range false (digits s)
    else in_range false (digits (c ∷ s))

-- `uint16(v)`
unfoldable pub to_uint16 : Bool × ℕ → ℕ
to_uint16 (true, n) = (2 ^ 16 - n % 2 ^ 16) % 2 ^ 16
to_uint16 (false, n) = n % 2 ^ 16

-- `qtype[strings.ToUpper(s)]`, or `dns.TypeNone`
unfoldable pub lookup_qtype : Bytes → ℕ
unfolding to_upper
lookup_qtype s = elim (Map.lookup (to_upper s) qtypes) [ none ↦ type_none | some v ↦ v ]

-- `ParseQTYPE`
unfoldable pub parse_qtype : Bytes → ℕ
unfolding atoi to_uint16 lookup_qtype
parse_qtype [] = type_a
parse_qtype (c ∷ s) = elim (atoi (c ∷ s)) [ some v ↦ to_uint16 v | none ↦ lookup_qtype (c ∷ s) ]
