-- ===== src/Tests/Downloads.antt =====
-- Examples for the downloads of updater.go.
use mathlib.Core.List.{mem-cons_self}
use mathlib.Core.List.Perm
use sdns.Base.{
  Option, ◌≡◌, refl, true, List, [], ◌∷◌, Bytes, bytes_eq, bytes_Eq, codes, some, if◌then◌else◌,
}
use sdns.Base.Map
use sdns.Updater.Downloads
use sdns.Updater.Downloads.{Got, complete, unreachable, download_all, fetch_names}
use sdns.Updater.Downloads.Contents

program : Unit {0}
unfolding Map.lookup Map.insert Downloads.decimal_from Downloads.decimal Downloads.file_name
    Downloads.times_of fetch_names Downloads.download_blocklist download_all
program = tt

-- two lists of one host
abbrev uris : List Bytes
uris = codes "x/a" ∷ codes "x/b" ∷ []

abbrev host_of : Bytes → Option Bytes
host_of uri = some (codes "x")

abbrev get : Bytes → Got
get uri = if bytes_eq uri (codes "x/a") then complete (codes "ads.com") else unreachable

-- the second download ends first
abbrev order : List (Bytes × Bytes)
order = (codes "x/b", codes "x.2.tmp") ∷ (codes "x/a", codes "x.1.tmp") ∷ []

abbrev downloads : List (Bytes × Bytes)
downloads = (codes "x/a", codes "x.1.tmp") ∷ (codes "x/b", codes "x.2.tmp") ∷ []

names : fetch_names host_of uris [] ≡ some downloads
unfolding program
names = refl

download_all_whole_example :
    Map.lookup (codes "x.1.tmp") (download_all (λ name. true) get order []) ≡ some (codes "ads.com")
unfolding program
download_all_whole_example =
    Contents.download_all_whole host_of (λ name. true) get uris [] downloads order (codes "x/a")
      (codes "x.1.tmp") (codes "ads.com") [] names (Perm.swap _ _ []) mem-cons_self refl refl
