-- ===== src/Resolver/Hosts.antt =====
-- resolver.go, `equalServers`: the hosts of two lists of servers, compared after sorting.
pub mod Equality
use sdns.Base.{
  ℕ, Bool, true, false, not, ◌&&◌, ◌||◌, ◌==◌, List, [], ◌∷◌, Bytes, bytes_eq, if◌then◌else◌,
  length, ltb,
}
use sdns.Cache.Servers.{AuthServers}
use sdns.Cache.Servers.Sorting.{hosts}

-- the order of Go's strings, `s <= t`
unfoldable pub str_le : Bytes → Bytes → Bool
str_le [] t = true
str_le (a ∷ s) [] = false
str_le (a ∷ s) (b ∷ t) = ltb a b || (a == b && str_le s t)

-- `sort.Strings`, as an insertion sort
unfoldable pub insert_str : Bytes → List Bytes → List Bytes
unfolding str_le
insert_str s [] = s ∷ []
insert_str s (t ∷ ts) = if str_le s t then s ∷ t ∷ ts else t ∷ insert_str s ts

unfoldable pub sort_strings : List Bytes → List Bytes
unfolding insert_str
sort_strings [] = []
sort_strings (s ∷ ss) = insert_str s (sort_strings ss)

-- the loop over both lists, which have the same length
unfoldable pub same_strings : List Bytes → List Bytes → Bool
same_strings [] ts = true
same_strings (s ∷ ss) [] = false
same_strings (s ∷ ss) (t ∷ ts) = bytes_eq s t && same_strings ss ts

-- `equalServers`
unfoldable pub equal_servers : AuthServers → AuthServers → Bool
unfolding sort_strings same_strings
equal_servers s1 s2 =
    if not (length (hosts s1.list) == length (hosts s2.list))
    then false
    else same_strings (sort_strings (hosts s1.list)) (sort_strings (hosts s2.list))
