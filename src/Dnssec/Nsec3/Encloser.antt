-- ===== src/Dnssec/Nsec3/Encloser.antt =====
-- The closest encloser of a name (nsec3.go, `findClosestEncloser`).
use sdns.Base.{ℕ, ◌≡◌, refl, Bool, true, false, List, [], ◌∷◌, ◌++◌, Bytes, All, arith, is_some}
use sdns.Dns.{Nsec3}
use sdns.Dnssec.Nsec3.{NsecLib, suffix, find_matching, encloser_from, find_closest_encloser}

module _ (lib : NsecLib) (name : Bytes) (nsec : List Nsec3) where
  -- a record matches the suffix that begins at the index
  abbrev pub is_matched : ℕ → Bool
  is_matched i = is_some (find_matching lib (suffix i name) nsec)

  -- the suffix at the last of the indices, or the name itself
  abbrev pub last_suffix : Bytes → List ℕ → Bytes
  last_suffix nc [] = nc
  last_suffix nc (i ∷ is) = last_suffix (suffix i name) is

  encloser_from_found :
      (nc : Bytes) (before : List ℕ) (i : ℕ) (after : List ℕ)
      → All (λ j. is_matched j ≡ false) before
      → is_matched i ≡ true
      → encloser_from lib name nc (before ++ i ∷ after) nsec
        ≡ (suffix i name, last_suffix nc before)
  unfolding encloser_from
  encloser_from_found nc [] i after none_before found = ground arith
  encloser_from_found nc (j ∷ before) i after none_before found =
      ground (arith, encloser_from_found (suffix j name) before i after)

  encloser_from_none :
      (nc : Bytes) (is : List ℕ)
      → All (λ j. is_matched j ≡ false) is
      → encloser_from lib name nc is nsec ≡ ([], [])
  unfolding encloser_from
  encloser_from_none nc [] h = refl
  encloser_from_none nc (j ∷ is) h = ground (arith, encloser_from_none (suffix j name) is)

  -- Where the suffix at index `i` is matched and none at an index before, it is the closest encloser,
  -- and the next closer name is the suffix at the index before it, or the name itself.
  pub find_closest_encloser_found :
      (before : List ℕ) (i : ℕ) (after : List ℕ)
      → lib.split name ≡ before ++ i ∷ after
      → All (λ j. is_matched j ≡ false) before
      → is_matched i ≡ true
      → find_closest_encloser lib name nsec ≡ (suffix i name, last_suffix name before)
  unfolding find_closest_encloser
  find_closest_encloser_found before i after e none_before found =
      rw e (encloser_from_found name before i after none_before found)

  -- Where no suffix is matched, both names are empty.
  pub find_closest_encloser_none :
      All (λ j. is_matched j ≡ false) (lib.split name)
      → find_closest_encloser lib name nsec ≡ ([], [])
  unfolding find_closest_encloser
  find_closest_encloser_none h = encloser_from_none name (lib.split name) h
