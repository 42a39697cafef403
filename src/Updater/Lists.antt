-- ===== src/Updater/Lists.antt =====
-- updater.go, `updateBlocklists` and `readBlocklists`, and `fetchBlocklists` of main.go: the lists of the
-- configuration, and then the files of the directory in the order of the walk. What the files hold when
-- the downloads have ended is a parameter (it is in Downloads).
pub mod Loaded
use sdns.Base.{
  ℕ, Bool, true, false, ◌||◌, List, [], ◌∷◌, Bytes, bytes_eq, Option, none, some, if◌then◌else◌,
  ◌>>=◌,
}
use sdns.Cache.BlockCache
use sdns.Cache.BlockCache.{BlockCache}
use sdns.Updater.{parse_host_file}
use sdns.Updater.Downloads.{fetch_names}

-- What the walk gives for a file: no information, which it passes on as nil and which makes `f.IsDir`
-- panic; an error of opening it; some lines and then an error; or all lines.
pub data FileRead : Type 0 where
  vanished unopened : FileRead
  broken whole : List Bytes → FileRead

module _ (fqdn : Bytes → Bytes) where
  -- the map `whitelist` after the loop over the entries
  unfoldable pub whitelisted : List Bytes → (Bytes → Bool) → Bytes → Bool
  whitelisted [] before name = before name
  whitelisted (entry ∷ entries) before name =
      bytes_eq (fqdn entry) name || whitelisted entries before name

  -- the loop over the entries of the block list
  unfoldable pub set_all : List Bytes → BlockCache → BlockCache
  set_all [] c = c
  set_all (entry ∷ entries) c = set_all entries (BlockCache.set (fqdn entry) c)

  -- `readBlocklists`, with false for an error, which ends the walk
  unfoldable pub read_blocklists :
      (Bytes → Bool) → List FileRead → BlockCache → Option (BlockCache × Bool)
  read_blocklists whitelist [] c = some (c, true)
  read_blocklists whitelist (vanished ∷ files) c = none
  read_blocklists whitelist (unopened ∷ files) c = some (c, false)
  read_blocklists whitelist (broken texts ∷ files) c =
      parse_host_file fqdn whitelist texts c >>= λ d. some (d, false)
  read_blocklists whitelist (whole texts ∷ files) c =
      parse_host_file fqdn whitelist texts c >>= λ d. read_blocklists whitelist files d

  -- `updateBlocklists`, with `fetchBlocklist`, and then `readBlocklists`; `has_dir` is whether the
  -- directory is there or was made
  unfoldable pub fetch_blocklists :
      (Bytes → Option Bytes)
      → List Bytes
      → List (Bytes × ℕ)
      → Bool
      → List Bytes
      → List Bytes
      → List FileRead
      → (Bytes → Bool)
      → BlockCache
      → Option (BlockCache × Bool)
  fetch_blocklists host_of uris seen has_dir white blocked files before c =
      if has_dir
      then (fetch_names host_of uris seen >>= λ downloads.
          read_blocklists (whitelisted white before) files (set_all blocked c))
      else read_blocklists before files c
