-- ===== src/Dnssec/Nsec3.antt =====
-- nsec3.go: proofs of absence by NSEC3 records. The records are those that `extractRRSet` gives for
-- the type NSEC3, after their type assertions. The library's `Split`, `Match` and `Cover` are
-- parameters.
pub mod Encloser
pub mod Verdicts
use sdns.Base.{
  ℕ, zero, suc, ◌%◌, Bool, true, false, not, ◌||◌, ◌==◌, List, [], ◌∷◌, ◌++◌, Bytes, codes, Option,
  none, some, if◌then◌else◌,
}
use sdns.Dns.{Question, Nsec3, type_ns, type_cname, type_soa, type_ds}
use sdns.Dnssec.Errors.{
  SecError, nsec_missing_coverage, nsec_type_exists, nsec_opt_out, nsec_ns_missing,
  nsec_bad_delegation,
}
use sdns.Records.{mem_types, is_empty}

-- `dns.Split`, the indices at which the labels of a name begin, and the methods of `dns.NSEC3`
pub record NsecLib : Type 0 where
  pub split : Bytes → List ℕ
  pub is_match : Nsec3 → Bytes → Bool
  pub is_cover : Nsec3 → Bytes → Bool

-- `typesSet`
unfoldable pub types_set : List ℕ → List ℕ → Bool
unfolding mem_types
types_set [] types = false
types_set (t ∷ set) types = mem_types t types || types_set set types

-- `name[i:]`
unfoldable pub suffix : ℕ → Bytes → Bytes
suffix zero s = s
suffix (suc i) [] = []
suffix (suc i) (c ∷ s) = suffix i s

module _ (lib : NsecLib) where
  -- `findMatching`: the type bit map of the first record that matches
  unfoldable pub find_matching : Bytes → List Nsec3 → Option (List ℕ)
  find_matching name [] = none
  find_matching name (n ∷ nsec) =
      if lib.is_match n name then some n.type_bit_map else find_matching name nsec

  -- `findCoverer`: the type bit map and the Opt-Out flag of the first record that covers
  unfoldable pub find_coverer : Bytes → List Nsec3 → Option (List ℕ × Bool)
  find_coverer name [] = none
  find_coverer name (n ∷ nsec) =
      if lib.is_cover n name
      then some (n.type_bit_map, n.flags % 2 == 1)
      else find_coverer name nsec

  -- the loop of `findClosestEncloser`; `nc` is the suffix at the index before
  unfoldable pub encloser_from : Bytes → Bytes → List ℕ → List Nsec3 → Bytes × Bytes
  unfolding find_matching suffix
  encloser_from name nc [] nsec = ([], [])
  encloser_from name nc (i ∷ is) nsec = elim (find_matching (suffix i name) nsec) [
    | none ↦ encloser_from name (suffix i name) is nsec
    | some types ↦ (suffix i name, nc)
  ]

  -- `findClosestEncloser`: the closest encloser and the next closer name
  unfoldable pub find_closest_encloser : Bytes → List Nsec3 → Bytes × Bytes
  unfolding encloser_from
  find_closest_encloser name nsec = encloser_from name name (lib.split name) nsec

  -- the error of `findCoverer`
  abbrev coverer_error : Option (List ℕ × Bool) → Option SecError
  coverer_error none = some nsec_missing_coverage
  coverer_error (some (types, opt_out)) = none

  -- `verifyNameError`
  unfoldable pub verify_name_error : Question → List Nsec3 → Option SecError
  unfolding find_closest_encloser find_coverer
  verify_name_error q nsec =
      let (ce, _) = find_closest_encloser q.name nsec in
      if is_empty ce
      then some nsec_missing_coverage
      else coverer_error (find_coverer (codes "*." ++ ce) nsec)

  abbrev opt_out_error : Option (List ℕ × Bool) → Option SecError
  opt_out_error none = some nsec_missing_coverage
  opt_out_error (some (types, opt_out)) = if not opt_out then some nsec_opt_out else none

  -- what `verifyNODATA` and `verifyDelegation` do for a name that no record matches
  unfoldable pub verify_opt_out : Bytes → List Nsec3 → Option SecError
  unfolding find_closest_encloser find_coverer
  verify_opt_out name nsec =
      let (ce, nc) = find_closest_encloser name nsec in
      if is_empty ce then some nsec_missing_coverage else opt_out_error (find_coverer nc nsec)

  -- `verifyNODATA`
  unfoldable pub verify_nodata : Question → List Nsec3 → Option SecError
  unfolding verify_opt_out types_set
  verify_nodata q nsec = elim (find_matching q.name nsec) [
    | none ↦
        if not (q.qtype == type_ds) then some nsec_missing_coverage else verify_opt_out q.name nsec
    | some types ↦
        if types_set types (q.qtype ∷ type_cname ∷ []) then some nsec_type_exists else none
  ]

  -- `verifyDelegation`
  unfoldable pub verify_delegation : Bytes → List Nsec3 → Option SecError
  unfolding verify_opt_out types_set
  verify_delegation delegation nsec = elim (find_matching delegation nsec) [
    | none ↦ verify_opt_out delegation nsec
    | some types ↦
        if not (types_set types (type_ns ∷ []))
        then some nsec_ns_missing
        else if types_set types (type_ds ∷ type_soa ∷ [])
        then some nsec_bad_delegation
        else none
  ]
