-- ===== src/Dnssec/Nsec3/Verdicts.antt =====
-- What a proof of absence that is accepted shows (nsec3.go).
use sdns.Base.{
  ℕ, ◌≡◌, ◌↔◌, ◌⊎◌, inl, inr, refl, true, false, ◌||◌, List, [], ◌∷◌, ◌++◌, Bytes, codes, none,
  some, arith, Option-cases, is_some,
}
use sdns.Dns.{Question, Nsec3, type_ns, type_cname, type_soa, type_ds}
use sdns.Dnssec.Nsec3.{
  NsecLib, types_set, find_matching, find_coverer, find_closest_encloser, verify_name_error,
  verify_opt_out, verify_nodata, verify_delegation,
}
use sdns.Records.{is_empty}

-- `typesSet` finds a type of the one list in the other.
pub types_set-append :
    (set set' types : List ℕ)
    → types_set (set ++ set') types ≡ (types_set set types || types_set set' types)
unfolding types_set
types_set-append [] set' types = refl
types_set-append (t ∷ set) set' types = ground (arith, types_set-append set set' types)

module _ (lib : NsecLib) (nsec : List Nsec3) where
  -- the closest encloser of a name
  abbrev pub encloser : Bytes → Bytes
  encloser name = (find_closest_encloser lib name nsec).0

  -- the next closer name
  abbrev pub next_closer : Bytes → Bytes
  next_closer name = (find_closest_encloser lib name nsec).1

  -- A name error is accepted exactly when there is a closest encloser and a record covers the
  -- wildcard below it.
  pub verify_name_error_iff :
      (q : Question)
      → (verify_name_error lib q nsec ≡ none) ↔ (
          (is_empty (encloser q.name) ≡ false)
          × (is_some (find_coverer lib (codes "*." ++ encloser q.name) nsec) ≡ true))
  unfolding verify_name_error
  verify_name_error_iff q = ground arith

  -- there is a closest encloser, and the first record that covers the next closer name opts out
  abbrev pub OptsOut : Bytes → Type 0
  OptsOut name =
      (is_empty (encloser name) ≡ false)
      × (types : List ℕ) × (find_coverer lib (next_closer name) nsec ≡ some (types, true))

  verify_opt_out_sound : (name : Bytes) → verify_opt_out lib name nsec ≡ none → OptsOut name
  unfolding verify_opt_out
  verify_opt_out_sound name h = elim (Option-cases (find_coverer lib (next_closer name) nsec)) [
    | inl e ↦ absurd (ground arith)
    | inr ((types, opt_out), e) ↦ (ground arith, types, ground arith)
  ]

  verify_opt_out_complete : (name : Bytes) → OptsOut name → verify_opt_out lib name nsec ≡ none
  unfolding verify_opt_out
  verify_opt_out_complete name h = ground (arith, h.0, h.2)

  -- A NODATA proof is accepted exactly when the first matching record has neither the type nor a
  -- CNAME, or when none matches, the question is for a DS and the next closer name is opted out.
  pub verify_nodata_iff :
      (q : Question)
      → (verify_nodata lib q nsec ≡ none) ↔ (
          ((types : List ℕ) × (find_matching lib q.name nsec ≡ some types)
            × (types_set types (q.qtype ∷ type_cname ∷ []) ≡ false))
          ⊎ ((find_matching lib q.name nsec ≡ none) × (q.qtype ≡ type_ds) × OptsOut q.name))
  unfolding verify_nodata
  verify_nodata_iff q = (
    λ h. elim (Option-cases (find_matching lib q.name nsec)) [
      | inl e ↦ inr (e, ground arith, verify_opt_out_sound q.name (ground arith))
      | inr (types, e) ↦ inl (types, e, ground arith)
    ],
    λ h. elim h [
      | inl (types, e, t) ↦ ground arith
      | inr (e, d, o) ↦ ground (arith, verify_opt_out_complete q.name o)
    ],
  )

  -- A delegation is accepted exactly when the first matching record has the type NS and neither DS
  -- nor SOA, or when none matches and the next closer name is opted out.
  pub verify_delegation_iff :
      (delegation : Bytes)
      → (verify_delegation lib delegation nsec ≡ none) ↔ (
          ((types : List ℕ) × (find_matching lib delegation nsec ≡ some types)
            × (types_set types (type_ns ∷ []) ≡ true)
            × (types_set types (type_ds ∷ type_soa ∷ []) ≡ false))
          ⊎ ((find_matching lib delegation nsec ≡ none) × OptsOut delegation))
  unfolding verify_delegation
  verify_delegation_iff delegation = (
    λ h. elim (Option-cases (find_matching lib delegation nsec)) [
      | inl e ↦ inr (e, verify_opt_out_sound delegation (ground arith))
      | inr (types, e) ↦ inl (types, e, ground arith, ground arith)
    ],
    λ h. elim h [
      | inl (types, e, t, u) ↦ ground arith
      | inr (e, o) ↦ ground (arith, verify_opt_out_complete delegation o)
    ],
  )
