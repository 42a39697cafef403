-- ===== src/Api.antt =====
-- api.go: the handlers of the block list. `dns.Fqdn`, which closes a name with a dot, is a
-- parameter. A handler gives the block list that it leaves and its status with its answer.
pub mod Blocks
use sdns.Base.{ℕ, Bool, true, Bytes, if◌then◌else◌, not}
use sdns.Cache.BlockCache
use sdns.Cache.BlockCache.{BlockCache}

-- the JSON of a reply
pub data Reply : Type 0 where
  exists_is : Bool → Reply
  success : Reply
  not_found : Bytes → Reply

abbrev pub status_ok : ℕ
status_ok = 200

abbrev pub status_not_found : ℕ
status_not_found = 404

-- `existsBlock`, which asks for the key as it is given
unfoldable pub exists_block : Bytes → BlockCache → BlockCache × ℕ × Reply
exists_block key c = (c, status_ok, exists_is (BlockCache.exists key c))

module _ (fqdn : Bytes → Bytes) where
  -- `getBlock`
  unfoldable pub get_block : Bytes → BlockCache → BlockCache × ℕ × Reply
  get_block key c =
      let (ok, _) = BlockCache.get (fqdn key) c in
      if not ok then (c, status_not_found, not_found key) else (c, status_ok, success)

  -- `removeBlock`
  unfoldable pub remove_block : Bytes → BlockCache → BlockCache × ℕ × Reply
  remove_block key c = (BlockCache.remove (fqdn key) c, status_ok, success)

  -- `setBlock`
  unfoldable pub set_block : Bytes → BlockCache → BlockCache × ℕ × Reply
  set_block key c = (BlockCache.set (fqdn key) c, status_ok, success)
