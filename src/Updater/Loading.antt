-- ===== src/Updater/Loading.antt =====
-- What a host file adds to the block list (updater.go).
use sdns.Base.{
  ◌≡◌, refl, ◌∙◌, Bool, true, false, not, ◌&&◌, ◌||◌, List, [], ◌∷◌, Bytes, bytes_eq_iff, to_lower,
  Option, none, some, arith, Option-cases, inl, inr, bytes_Eq,
}
use sdns.Cache.BlockCache
use sdns.Cache.BlockCache.{BlockCache}
use sdns.Cache.BlockCache.Reads.{same_name, exists-set}
use sdns.Updater.{entry_of, add_entry, parse_host_file}
use sdns.Updater.Lines.{entry_of_total}

-- names that are equal up to case are both blocked or both not
exists-same_name :
    (a b : Bytes) (c : BlockCache)
    → same_name a b ≡ true
    → BlockCache.exists a c ≡ BlockCache.exists b c
unfolding BlockCache.exists
exists-same_name a b c h = rw (← (bytes_eq_iff (to_lower a) (to_lower b)).0 h) refl

module _ (fqdn : Bytes → Bytes) (whitelist : Bytes → Bool) where
  -- the entry blocks the name
  abbrev pub entry_blocks : Bytes → Option Bytes → Bool
  entry_blocks name none = false
  entry_blocks name (some e) = not (whitelist (fqdn e)) && same_name (fqdn e) name

  -- the entry of a line that can be read
  abbrev line_blocks : Bytes → Option (Option Bytes) → Bool
  line_blocks name none = false
  line_blocks name (some entry) = entry_blocks name entry

  -- some line of the file names it, and is not on the whitelist
  abbrev pub is_listed : Bytes → List Bytes → Bool
  is_listed name [] = false
  is_listed name (text ∷ texts) = line_blocks name (entry_of text) || is_listed name texts

  exists-add_entry :
      (name : Bytes) (entry : Option Bytes) (c : BlockCache)
      → BlockCache.exists name (add_entry fqdn whitelist entry c)
        ≡ (entry_blocks name entry || BlockCache.exists name c)
  unfolding add_entry
  exists-add_entry name none c = refl
  exists-add_entry name (some e) c =
      ground (arith, exists-set (fqdn e) name c, exists-same_name (fqdn e) name c)

  -- Loading a host file does not panic, and afterwards exactly those names are blocked that were
  -- blocked before or that a line names, without regard to case, and the whitelist does not hold.
  pub parse_host_file_lem :
      (texts : List Bytes) (c : BlockCache)
      → (d : BlockCache) × (parse_host_file fqdn whitelist texts c ≡ some d)
        × ((name : Bytes)
            → BlockCache.exists name d ≡ (is_listed name texts || BlockCache.exists name c))
  unfolding parse_host_file
  parse_host_file_lem [] c = (c, refl, λ name. refl)
  parse_host_file_lem (text ∷ texts) c = elim (Option-cases (entry_of text)) [
    | inl e ↦ absurd (ground (arith, entry_of_total text))
    | inr (entry, e) ↦
        let (d, loaded, blocked) = parse_host_file_lem texts (add_entry fqdn whitelist entry c) in
        (
          d,
          rw (e, parse_host_file) loaded,
          λ name. blocked name ∙ rw (e, exists-add_entry name entry c) (ground arith),
        )
  ]
