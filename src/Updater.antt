-- ===== src/Updater.antt =====
-- updater.go, `parseHostFile`: the names of a host file go into the block list. The lines are those
-- that the scanner gives; `dns.Fqdn` and the whitelist are parameters. Texts are ASCII. `none` is the
-- panic of an index out of range.
pub mod Lines
pub mod Loading
pub mod Lists
pub mod Downloads
use sdns.Base.{
  ℕ, Bool, true, false, not, ◌&&◌, ◌||◌, ◌==◌, List, [], ◌∷◌, ◌++◌, Bytes, Option, none, some,
  if◌then◌else◌, ◌>>=◌, leb,
}
use sdns.Cache.BlockCache
use sdns.Cache.BlockCache.{BlockCache}
use sdns.Records.{is_empty}

-- `unicode.IsSpace` on ASCII: the space, and the bytes from tab to carriage return
unfoldable pub is_space : ℕ → Bool
is_space c = c == 32 || (leb 9 c && leb c 13)

-- `strings.TrimSpace`, from the left and from the right
unfoldable pub trim_left : Bytes → Bytes
trim_left [] = []
trim_left (c ∷ s) = if is_space c then trim_left s else c ∷ s

unfoldable pub trim_right : Bytes → Bytes
trim_right [] = []
trim_right (c ∷ s) = let rest = trim_right s in if is_empty rest && is_space c then [] else c ∷ rest

unfoldable pub trim_space : Bytes → Bytes
unfolding trim_left trim_right
trim_space s = trim_right (trim_left s)

-- `strings.Fields`, with the field that is being read
unfoldable pub fields_from : Bytes → Bytes → List Bytes
fields_from word [] = if is_empty word then [] else word ∷ []
fields_from word (c ∷ s) =
    let apart = fields_from [] s in
    let on = fields_from (word ++ c ∷ []) s in
    if is_space c then (if is_empty word then apart else word ∷ apart) else on

unfoldable pub fields : Bytes → List Bytes
unfolding fields_from
fields s = fields_from [] s

-- `strings.HasPrefix(s, "#")`
unfoldable pub is_comment : Bytes → Bool
is_comment [] = false
is_comment (c ∷ s) = c == b'#'

-- the name on a line with the given fields
unfoldable pub name_of : List Bytes → Option Bytes
unfolding is_comment
name_of [] = none
name_of (first ∷ []) = some first
name_of (first ∷ second ∷ others) = if not (is_comment second) then some second else some first

-- what a line adds: nothing, or a name
unfoldable pub entry_of : Bytes → Option (Option Bytes)
unfolding trim_space fields name_of
entry_of text =
    let line = trim_space text in
    if not (is_comment line) && not (is_empty line)
    then (name_of (fields line) >>= λ name. some (some name))
    else some none

module _ (fqdn : Bytes → Bytes) (whitelist : Bytes → Bool) where
  unfoldable pub add_entry : Option Bytes → BlockCache → BlockCache
  add_entry none c = c
  add_entry (some name) c =
      let line = fqdn name in
      if not (BlockCache.exists line c) && not (whitelist line) then BlockCache.set line c else c

  -- `parseHostFile`
  unfoldable pub parse_host_file : List Bytes → BlockCache → Option BlockCache
  unfolding entry_of add_entry
  parse_host_file [] c = some c
  parse_host_file (text ∷ texts) c =
      entry_of text >>= λ entry. parse_host_file texts (add_entry entry c)
