-- ===== src/Updater/Lines.antt =====
-- The lines of a host file (updater.go, `parseHostFile`).
use sdns.Base.{
  ℕ, ◌≡◌, refl, true, false, List, [], ◌∷◌, ◌++◌, Bytes, arith, Bool-cases, inl, inr, is_some,
}
use sdns.Records.{is_empty}
use sdns.Updater.{
  is_space, trim_left, trim_right, trim_space, fields_from, fields, name_of, entry_of,
}

-- a word that has begun becomes a field
fields_from_begun : (word s : Bytes) → is_empty word ≡ false → is_empty (fields_from word s) ≡ false
unfolding fields_from
fields_from_begun word [] h = ground arith
fields_from_begun word (c ∷ s) h =
    ground (arith, fields_from_begun (word ++ c ∷ []) s (snoc word c))
  where
    snoc : (word : Bytes) (c : ℕ) → is_empty (word ++ c ∷ []) ≡ false
    snoc [] c = refl
    snoc (d ∷ word) c = refl

-- a text that begins with no space
StartsBare : Bytes → Type 0
StartsBare [] = Unit
StartsBare (c ∷ s) = is_space c ≡ false

trim_left-StartsBare : (s : Bytes) → StartsBare (trim_left s)
unfolding trim_left StartsBare
trim_left-StartsBare [] = tt
trim_left-StartsBare (c ∷ s) = elim (Bool-cases (is_space c)) [
  | inl e ↦ rw e (trim_left-StartsBare s)
  | inr e ↦ rw e e
]

trim_right-StartsBare : (s : Bytes) → StartsBare s → StartsBare (trim_right s)
unfolding trim_right StartsBare
trim_right-StartsBare [] h = tt
trim_right-StartsBare (c ∷ s) h = elim (Bool-cases (is_empty (trim_right s))) [
  | inl e ↦ rw (e, h) h
  | inr e ↦ rw e h
]

fields_bare : (s : Bytes) → StartsBare s → is_empty s ≡ false → is_empty (fields s) ≡ false
unfolding fields fields_from StartsBare
fields_bare [] h n = n
fields_bare (c ∷ s) h n = rw h (fields_from_begun (c ∷ []) s refl)

name_of_some : (parts : List Bytes) → is_empty parts ≡ false → is_some (name_of parts) ≡ true
unfolding name_of
name_of_some [] h = ground arith
name_of_some (p ∷ []) h = refl
name_of_some (p ∷ q ∷ parts) h = ground arith

-- Reading a line does not panic: a line that is not empty has a field.
pub entry_of_total : (text : Bytes) → is_some (entry_of text) ≡ true
unfolding entry_of trim_space
entry_of_total text =
    let line = trim_space text in
    let bare = trim_right-StartsBare (trim_left text) (trim_left-StartsBare text) in
    elim (Bool-cases (is_empty line)) [
      | inl e ↦ ground arith
      | inr e ↦ ground (arith, name_of_some (fields line) (fields_bare line bare e))
    ]
