-- ===== src/Updater/Downloads/Names.antt =====
-- No two downloads have the same file (updater.go, `fetchBlocklist`).
use mathlib.Core.List.{append_assoc, append-nil, append_cancel_right}
use mathlib.Core.Path.{subst}
use sdns.Base.{
  ℕ, zero, suc, ◌+◌, ◌*◌, ◌-◌, ◌/◌, ◌%◌, ◌≤◌, ◌<◌, ◌≡◌, ◌≢◌, refl, sym, ap, ◌∙◌, Bool, false, ◌||◌,
  ◌==◌, List, [], ◌∷◌, ◌++◌, Bytes, codes, bytes_eq_iff, bytes_Eq, Option, some, if◌then◌else◌, ltb,
  All, Option-cases, arith, Bool-cases, inl, inr,
}
use sdns.Base.Map
use sdns.Updater.Downloads.{decimal_from, decimal, file_name, times_of, fetch_names}

-- the number that a text of digits writes
abbrev value_from : ℕ → Bytes → ℕ
value_from acc [] = acc
value_from acc (c ∷ s) = value_from (acc * 10 + (c - b'0')) s

value_from-append :
    (acc c : ℕ) (s : Bytes) → value_from acc (s ++ c ∷ []) ≡ value_from acc s * 10 + (c - b'0')
value_from-append acc c [] = refl
value_from-append acc c (d ∷ s) = value_from-append (acc * 10 + (d - b'0')) c s

value_from-decimal_from : (fuel n : ℕ) → n < fuel → value_from 0 (decimal_from fuel n) ≡ n
unfolding decimal_from
value_from-decimal_from zero n h = absurd (omega arith)
value_from-decimal_from (suc fuel) n h = elim (Bool-cases (ltb n 10)) [
  | inl small ↦ rw small (omega arith)
  | inr large ↦ rw large (
      value_from-append 0 (b'0' + n % 10) (decimal_from fuel (n / 10))
      ∙ (let ih = value_from-decimal_from fuel (n / 10) (ground arith) in omega arith))
]

decimal-injective : (m n : ℕ) → decimal m ≡ decimal n → m ≡ n
unfolding decimal
decimal-injective m n e =
    sym (value_from-decimal_from (suc m) m (omega arith))
    ∙ ap (value_from 0) e
    ∙ value_from-decimal_from (suc n) n (omega arith)

abbrev has_dot : Bytes → Bool
has_dot [] = false
has_dot (c ∷ s) = c == b'.' || has_dot s

has_dot-append : (s : Bytes) (c : ℕ) → has_dot (s ++ c ∷ []) ≡ (has_dot s || c == b'.')
has_dot-append [] c = ground arith
has_dot-append (d ∷ s) c = ground (arith, has_dot-append s c)

has_dot-decimal_from : (fuel n : ℕ) → has_dot (decimal_from fuel n) ≡ false
unfolding decimal_from
has_dot-decimal_from zero n = refl
has_dot-decimal_from (suc fuel) n = ground (
  arith,
  has_dot-append (decimal_from fuel (n / 10)) (b'0' + n % 10),
  has_dot-decimal_from fuel (n / 10),
)

-- the part of a text after its last dot, with what was read since the last one
abbrev last_part : Bytes → Bytes → Bytes
last_part word [] = word
last_part word (c ∷ s) = if c == b'.' then last_part [] s else last_part (word ++ c ∷ []) s

last_part_undotted : (word d : Bytes) → has_dot d ≡ false → last_part word d ≡ word ++ d
last_part_undotted word [] h = sym (append-nil word)
last_part_undotted word (c ∷ d) h = elim (Bool-cases (c == b'.')) [
  | inl e ↦ absurd (ground arith)
  | inr e ↦
      rw e (last_part_undotted (word ++ c ∷ []) d (ground arith) ∙ append_assoc word (c ∷ []) d)
]

last_part_lem : (word h d : Bytes) → has_dot d ≡ false → last_part word (h ++ b'.' ∷ d) ≡ d
last_part_lem word [] d k = last_part_undotted [] d k
last_part_lem word (c ∷ h) d k = elim (Bool-cases (c == b'.')) [
  | inl e ↦ rw e (last_part_lem [] h d k)
  | inr e ↦ rw e (last_part_lem (word ++ c ∷ []) h d k)
]

-- A file name tells its host and its number.
file_name-injective : (g h : Bytes) (m n : ℕ) → file_name g m ≡ file_name h n → (g ≡ h) × (m ≡ n)
unfolding file_name decimal
file_name-injective g h m n e =
    let dot = codes "." in
    let e' = append_cancel_right (g ++ dot ++ decimal m) (h ++ dot ++ decimal n) (codes ".tmp") e in
    let p = last_part_lem [] g (decimal m) (has_dot-decimal_from (suc m) m) in
    let q = last_part_lem [] h (decimal n) (has_dot-decimal_from (suc n) n) in
    let same : decimal m ≡ decimal n =
      sym p
      ∙ ap (last_part [])
          (sym (append_assoc g dot (decimal m)) ∙ e' ∙ append_assoc h dot (decimal n))
      ∙ q in
    let k = decimal-injective m n same in
    let e2 : g ++ dot ++ decimal m ≡ h ++ dot ++ decimal m =
      e' ∙ ap (λ d. h ++ dot ++ d) (sym same) in
    (append_cancel_right g h dot (append_cancel_right (g ++ dot) (h ++ dot) (decimal m) e2), k)

times_of-insert_self :
    (host : Bytes) (k : ℕ) (seen : List (Bytes × ℕ)) → k ≤ times_of host (Map.insert host k seen)
unfolding times_of
times_of-insert_self host k seen =
    ground (arith, Map.lookup-insert host host k seen, bytes_eq_iff host host)

times_of-insert :
    (host h : Bytes) (n : ℕ) (seen : List (Bytes × ℕ))
    → n ≤ times_of h seen
    → n ≤ times_of h (Map.insert host (times_of host seen + 1) seen)
unfolding times_of
times_of-insert host h n seen le =
    let k = times_of host seen + 1 in
    ground (arith, Map.lookup-insert host h k seen, bytes_eq_iff host h)

-- the downloads have pairwise different files
abbrev pub IsApart : List (Bytes × Bytes) → Type 0
IsApart [] = Unit
IsApart ((uri, name) ∷ later) = All (λ p. p.1 ≢ name) later × IsApart later

module _ (host_of : Bytes → Option Bytes) where
  fetch_names_new :
      (uris : List Bytes) (seen : List (Bytes × ℕ)) (h : Bytes) (n : ℕ) (ds : List (Bytes × Bytes))
      → n ≤ times_of h seen
      → fetch_names host_of uris seen ≡ some ds
      → All (λ p. p.1 ≢ file_name h n) ds
  unfolding fetch_names
  fetch_names_new [] seen h n ds le e =
      let same : [] ≡ ds = ground arith in subst (All (λ p. p.1 ≢ file_name h n)) same tt
  fetch_names_new (uri ∷ uris) seen h n ds le e = elim (Option-cases (host_of uri)) [
    | inl f ↦ absurd (ground arith)
    | inr (host, f) ↦
        let k = times_of host seen + 1 in
        elim (Option-cases (fetch_names host_of uris (Map.insert host k seen))) [
          | inl g ↦ absurd (ground arith)
          | inr (later, g) ↦
              let same : (uri, file_name host k) ∷ later ≡ ds = ground arith in
              subst (All (λ p. p.1 ≢ file_name h n)) same (
                λ i.
                    let (p, q) = file_name-injective host h k n i in
                    let t = ap (λ x. times_of x seen) p in omega arith,
                fetch_names_new uris (Map.insert host k seen) h n later
                    (times_of-insert host h n seen le) g,
              )
        ]
  ]

  -- Whatever lists are configured, also the same one several times and several of one host, and
  -- whatever was downloaded before, no two downloads have the same file.
  pub fetch_names-IsApart :
      (uris : List Bytes) (seen : List (Bytes × ℕ)) (ds : List (Bytes × Bytes))
      → fetch_names host_of uris seen ≡ some ds
      → IsApart ds
  unfolding fetch_names
  fetch_names-IsApart [] seen ds e = let same : [] ≡ ds = ground arith in subst IsApart same tt
  fetch_names-IsApart (uri ∷ uris) seen ds e = elim (Option-cases (host_of uri)) [
    | inl f ↦ absurd (ground arith)
    | inr (host, f) ↦
        let k = times_of host seen + 1 in
        elim (Option-cases (fetch_names host_of uris (Map.insert host k seen))) [
          | inl g ↦ absurd (ground arith)
          | inr (later, g) ↦
              let same : (uri, file_name host k) ∷ later ≡ ds = ground arith in
              subst IsApart same (
                fetch_names_new uris (Map.insert host k seen) host k later
                    (times_of-insert_self host k seen) g,
                fetch_names-IsApart uris (Map.insert host k seen) later g,
              )
        ]
  ]
