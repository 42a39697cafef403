-- ===== src/Updater/Downloads.antt =====
-- updater.go, `fetchBlocklist` and `downloadBlocklist`: the lists of the configuration are downloaded
-- at the same time, each to a file of its own. `url.Parse` and the network are parameters; a file is a
-- text under its name.
pub mod Names
pub mod Contents
use sdns.Base.{
  ℕ, zero, suc, ◌+◌, ◌/◌, ◌%◌, Bool, true, false, List, [], ◌∷◌, ◌++◌, Bytes, codes, bytes_Eq,
  Option, none, some, if◌then◌else◌, ◌>>=◌, ltb,
}
use sdns.Base.Map

-- `%d`, on fuel that exceeds the number
unfoldable pub decimal_from : ℕ → ℕ → Bytes
decimal_from zero n = []
decimal_from (suc fuel) n =
    let rest = decimal_from fuel (n / 10) in
    if ltb n 10 then (b'0' + n) ∷ [] else rest ++ (b'0' + n % 10) ∷ []

unfoldable pub decimal : ℕ → Bytes
unfolding decimal_from
decimal n = decimal_from (suc n) n

-- `fmt.Sprintf("%s.%d.tmp", host, timesSeen[host])`
unfoldable pub file_name : Bytes → ℕ → Bytes
file_name host n = host ++ codes "." ++ decimal n ++ codes ".tmp"

-- `timesSeen[host]`, zero for a host that was not seen
unfoldable pub times_of : Bytes → List (Bytes × ℕ) → ℕ
times_of host seen = elim (Map.lookup host seen) [ none ↦ 0 | some n ↦ n ]

-- The loop over `Config.BlockLists`: the address and the file of each download. An address that
-- `url.Parse` rejects makes it panic, on the host of no URL.
unfoldable pub fetch_names :
    (Bytes → Option Bytes) → List Bytes → List (Bytes × ℕ) → Option (List (Bytes × Bytes))
unfolding times_of file_name
fetch_names host_of [] seen = some []
fetch_names host_of (uri ∷ uris) seen = host_of uri >>= λ host.
    let n = times_of host seen + 1 in
    fetch_names host_of uris (Map.insert host n seen) >>= λ later.
    some ((uri, file_name host n) ∷ later)

-- what `http.Get` with the copy of its body gives: an error, a part and then an error, or all
pub data Got : Type 0 where
  unreachable : Got
  partial complete : Bytes → Got

-- `downloadBlocklist`, with false for an error: the file is made, empty, before the download begins.
unfoldable pub download_blocklist :
    (Bytes → Bool)
    → (Bytes → Got)
    → Bytes
    → Bytes
    → List (Bytes × Bytes)
    → List (Bytes × Bytes) × Bool
download_blocklist may_create get uri name files =
    if may_create name
    then elim (get uri) [
      | unreachable ↦ (Map.insert name [] files, false)
      | partial body ↦ (Map.insert name body files, false)
      | complete body ↦ (Map.insert name body files, true)
    ]
    else (files, false)

-- the goroutines, in the order in which they end
unfoldable pub download_all :
    (Bytes → Bool)
    → (Bytes → Got)
    → List (Bytes × Bytes)
    → List (Bytes × Bytes)
    → List (Bytes × Bytes)
unfolding download_blocklist
download_all may_create get [] files = files
download_all may_create get ((uri, name) ∷ later) files =
    download_all may_create get later (download_blocklist may_create get uri name files).0
