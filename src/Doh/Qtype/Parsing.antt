-- ===== src/Doh/Qtype/Parsing.antt =====
-- What `ParseQTYPE` makes of numbers and of names (doh/qtype.go).
use sdns.Base.{
  ℕ, ◌+◌, ◌-◌, ◌*◌, ◌^◌, ◌%◌, ◌<◌, ◌≡◌, refl, List, [], ◌∷◌, map, Bytes, some, arith, All,
}
use sdns.Doh.Qtype.{upper_byte, to_upper, digits_from, digits, atoi, parse_qtype}

-- the text of decimal digits
abbrev pub digit_text : List ℕ → Bytes
digit_text = map (λ d. b'0' + d)

-- their value after those of `acc`
abbrev pub value_from : ℕ → List ℕ → ℕ
value_from acc [] = acc
value_from acc (d ∷ ds) = value_from (acc * 10 + d) ds

digits_from-digit_text :
    (acc : ℕ) (ds : List ℕ)
    → All (λ d. d < 10) ds
    → digits_from acc (digit_text ds) ≡ some (value_from acc ds)
unfolding digits_from
digits_from-digit_text acc [] h = refl
digits_from-digit_text acc (d ∷ ds) h = ground (arith, digits_from-digit_text (acc * 10 + d) ds h.1)

-- A decimal number that fits in 63 bits is taken modulo 2 ^ 16, whether or not a type has it: larger
-- numbers wrap around to small types.
pub parse_qtype-digit_text :
    (d : ℕ) (ds : List ℕ)
    → All (λ d. d < 10) (d ∷ ds)
    → value_from d ds < 2 ^ 63
    → parse_qtype (digit_text (d ∷ ds)) ≡ value_from d ds % 2 ^ 16
unfolding parse_qtype
parse_qtype-digit_text d ds h k = ground (arith, digits_from-digit_text 0 (d ∷ ds) h)

upper_byte_idem : (c : ℕ) → upper_byte (upper_byte c) ≡ upper_byte c
unfolding upper_byte
upper_byte_idem c = ground arith

to_upper_idem : (s : Bytes) → to_upper (to_upper s) ≡ to_upper s
unfolding to_upper
to_upper_idem [] = refl
to_upper_idem (c ∷ s) = ground (arith, upper_byte_idem c, to_upper_idem s)

digits_from-to_upper : (acc : ℕ) (s : Bytes) → digits_from acc (to_upper s) ≡ digits_from acc s
unfolding digits_from to_upper upper_byte
digits_from-to_upper acc [] = refl
digits_from-to_upper acc (c ∷ s) = ground (arith, digits_from-to_upper (acc * 10 + (c - b'0')) s)

digits-to_upper : (s : Bytes) → digits (to_upper s) ≡ digits s
unfolding digits to_upper
digits-to_upper [] = refl
digits-to_upper (c ∷ s) = digits_from-to_upper 0 (c ∷ s)

atoi-to_upper : (s : Bytes) → atoi (to_upper s) ≡ atoi s
unfolding atoi to_upper upper_byte
atoi-to_upper [] = refl
atoi-to_upper (c ∷ s) = ground (arith, digits-to_upper s, digits-to_upper (c ∷ s))

-- The case of the letters does not matter, neither in a name nor beside a number.
pub parse_qtype-to_upper : (s : Bytes) → parse_qtype (to_upper s) ≡ parse_qtype s
unfolding parse_qtype
parse_qtype-to_upper [] = refl
parse_qtype-to_upper (c ∷ s) = ground (arith, atoi-to_upper (c ∷ s), to_upper_idem (c ∷ s))
