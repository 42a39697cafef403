-- ===== src/Updater/Lists/Loaded.antt =====
-- The block list after all lists are loaded (updater.go, main.go).
use sdns.Base.{
  ◌≡◌, refl, Bool, true, false, ◌||◌, ◌&&◌, if◌then◌else◌, List, [], ◌∷◌, Bytes, Option, none, some,
  arith, bytes_Eq, ℕ, ◌+◌, not, is_some, Option-cases, inl, inr,
}
use sdns.Base.Map
use sdns.Cache.BlockCache
use sdns.Cache.BlockCache.{BlockCache}
use sdns.Cache.BlockCache.Reads.{same_name, exists-set}
use sdns.Updater.Lists.{
  FileRead, vanished, unopened, broken, whole, whitelisted, set_all, read_blocklists,
  fetch_blocklists,
}
use sdns.Updater.Downloads.{fetch_names, times_of}
use sdns.Updater.Loading.{is_listed, parse_host_file_lem}

module _ (fqdn : Bytes → Bytes) where
  -- some entry of the configuration is the name
  abbrev pub is_entry : Bytes → List Bytes → Bool
  is_entry name [] = false
  is_entry name (entry ∷ entries) = same_name (fqdn entry) name || is_entry name entries

  -- some file names it, up to the first that cannot be read to its end
  abbrev pub is_read : (Bytes → Bool) → Bytes → List FileRead → Bool
  is_read whitelist name [] = false
  is_read whitelist name (vanished ∷ files) = false
  is_read whitelist name (unopened ∷ files) = false
  is_read whitelist name (broken texts ∷ files) = is_listed fqdn whitelist name texts
  is_read whitelist name (whole texts ∷ files) =
      is_listed fqdn whitelist name texts || is_read whitelist name files

  -- the walk comes to its end
  abbrev pub all_read : List FileRead → Bool
  all_read [] = true
  all_read (vanished ∷ files) = false
  all_read (unopened ∷ files) = false
  all_read (broken texts ∷ files) = false
  all_read (whole texts ∷ files) = all_read files

  -- the walk comes to a file of which it has no information
  abbrev pub is_lost : List FileRead → Bool
  is_lost [] = false
  is_lost (vanished ∷ files) = true
  is_lost (unopened ∷ files) = false
  is_lost (broken texts ∷ files) = false
  is_lost (whole texts ∷ files) = is_lost files

  abbrev pub all_parse : (Bytes → Option Bytes) → List Bytes → Bool
  all_parse host_of [] = true
  all_parse host_of (uri ∷ uris) = is_some (host_of uri) && all_parse host_of uris

  is_some-fetch_names :
      (host_of : Bytes → Option Bytes) (uris : List Bytes) (seen : List (Bytes × ℕ))
      → is_some (fetch_names host_of uris seen) ≡ all_parse host_of uris
  unfolding fetch_names
  is_some-fetch_names host_of [] seen = refl
  is_some-fetch_names host_of (uri ∷ uris) seen = elim (Option-cases (host_of uri)) [
    | inl e ↦ rw e refl
    | inr (host, e) ↦
        let seen' = Map.insert host (times_of host seen + 1) seen in
        let rest = is_some-fetch_names host_of uris seen' in
        elim (Option-cases (fetch_names host_of uris seen')) [
          | inl f ↦ rw (e, f, ← rest, f) refl
          | inr (later, f) ↦ rw (e, f, ← rest, f) refl
        ]
  ]

  exists-set_all :
      (name : Bytes) (entries : List Bytes) (c : BlockCache)
      → BlockCache.exists name (set_all fqdn entries c)
        ≡ (is_entry name entries || BlockCache.exists name c)
  unfolding set_all
  exists-set_all name [] c = refl
  exists-set_all name (entry ∷ entries) c = ground (
    arith,
    exists-set_all name entries (BlockCache.set (fqdn entry) c),
    exists-set (fqdn entry) name c,
  )

  -- what was loaded: the block list, and whether there was no error
  abbrev pub Loads :
      (Bytes → Bool) → List FileRead → BlockCache → Option (BlockCache × Bool) → Type 0
  Loads whitelist files c none = is_lost files ≡ true
  Loads whitelist files c (some (d, fine)) =
      (is_lost files ≡ false)
      × (fine ≡ all_read files)
      × ((name : Bytes)
          → BlockCache.exists name d ≡ (is_read whitelist name files || BlockCache.exists name c))

  and_more :
      (whitelist : Bytes → Bool) (texts : List Bytes) (files : List FileRead) (c d : BlockCache)
      (loaded : Option (BlockCache × Bool))
      → ((name : Bytes)
          → BlockCache.exists name d
            ≡ (is_listed fqdn whitelist name texts || BlockCache.exists name c))
      → Loads whitelist files d loaded
      → Loads whitelist (whole texts ∷ files) c loaded
  and_more whitelist texts files c d none first later = later
  and_more whitelist texts files c d (some (d', fine)) first later =
      (later.0, later.1, λ name. ground (arith, later.2 name, first name))

  read_blocklists-Loads :
      (whitelist : Bytes → Bool) (files : List FileRead) (c : BlockCache)
      → Loads whitelist files c (read_blocklists fqdn whitelist files c)
  unfolding read_blocklists
  read_blocklists-Loads whitelist [] c = (refl, refl, λ name. refl)
  read_blocklists-Loads whitelist (vanished ∷ files) c = refl
  read_blocklists-Loads whitelist (unopened ∷ files) c = (refl, refl, λ name. refl)
  read_blocklists-Loads whitelist (broken texts ∷ files) c =
      let (d, e, blocked) = parse_host_file_lem fqdn whitelist texts c in
      rw (e, read_blocklists) (refl, refl, blocked)
  read_blocklists-Loads whitelist (whole texts ∷ files) c =
      let (d, e, blocked) = parse_host_file_lem fqdn whitelist texts c in
      rw (e, read_blocklists)
        (and_more whitelist texts files c d (read_blocklists fqdn whitelist files d) blocked
          (read_blocklists-Loads whitelist files d))

  -- What was loaded, or a panic, for a list of the configuration that does not parse, or for a file of
  -- which the walk has no information. The lists of the configuration count if there is a directory.
  abbrev pub Fetches :
      Bool
      → Bool
      → List Bytes
      → List Bytes
      → List FileRead
      → (Bytes → Bool)
      → BlockCache
      → Option (BlockCache × Bool)
      → Type 0
  Fetches parsed has_dir white blocked files before c none =
      (has_dir && not parsed || is_lost files) ≡ true
  Fetches parsed has_dir white blocked files before c (some (d, fine)) =
      let whitelist = if has_dir then whitelisted fqdn white before else before in
      ((has_dir && not parsed || is_lost files) ≡ false)
      × (fine ≡ all_read files)
      × ((name : Bytes)
          → BlockCache.exists name d ≡ (
              is_read whitelist name files
              || (has_dir && is_entry name blocked)
              || BlockCache.exists name c))

  with_entries :
      (white blocked : List Bytes) (files : List FileRead) (before : Bytes → Bool) (c : BlockCache)
      (loaded : Option (BlockCache × Bool))
      → Loads (whitelisted fqdn white before) files (set_all fqdn blocked c) loaded
      → Fetches true true white blocked files before c loaded
  with_entries white blocked files before c none l = l
  with_entries white blocked files before c (some (d, fine)) l =
      (l.0, l.1, λ name. ground (arith, l.2 name, exists-set_all name blocked c))

  without_entries :
      (parsed : Bool) (white blocked : List Bytes) (files : List FileRead) (before : Bytes → Bool)
      (c : BlockCache) (loaded : Option (BlockCache × Bool))
      → Loads before files c loaded
      → Fetches parsed false white blocked files before c loaded
  without_entries parsed white blocked files before c none l = l
  without_entries parsed white blocked files before c (some (d, fine)) l =
      (l.0, l.1, λ name. ground (arith, l.2 name))

  -- Loading the lists panics exactly if there is a directory and `url.Parse` rejects a list of the
  -- configuration, or the walk comes to a file of which it has no information. Otherwise exactly those
  -- names are blocked afterwards, without regard to case, that were blocked before, that the
  -- configuration blocks, or that a line of a file names which the whitelist does not hold; the files
  -- count up to the first that cannot be read to its end. The whitelist does not hold back what the
  -- configuration blocks, and without a directory the lists of the configuration do not count.
  pub fetch_blocklists-Fetches :
      (host_of : Bytes → Option Bytes) (uris : List Bytes) (seen : List (Bytes × ℕ))
      (has_dir : Bool) (white blocked : List Bytes) (files : List FileRead) (before : Bytes → Bool)
      (c : BlockCache)
      → Fetches
          (all_parse host_of uris)
          has_dir
          white
          blocked
          files
          before
          c
          (fetch_blocklists fqdn host_of uris seen has_dir white blocked files before c)
  unfolding fetch_blocklists
  fetch_blocklists-Fetches host_of uris seen true white blocked files before c =
      let k = is_some-fetch_names host_of uris seen in
      elim (Option-cases (fetch_names host_of uris seen)) [
        | inl e ↦ rw (e, ← k, e) refl
        | inr (downloads, e) ↦
            rw (e, ← k, e)
              (with_entries white blocked files before c _ (
                read_blocklists-Loads (whitelisted fqdn white before) files
                  (set_all fqdn blocked c)))
      ]
  fetch_blocklists-Fetches host_of uris seen false white blocked files before c =
      without_entries (all_parse host_of uris) white blocked files before c _
        (read_blocklists-Loads before files c)
