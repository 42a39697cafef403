-- ===== src/Api/Blocks.antt =====
-- What a client of the API sees of the block list (api.go).
use sdns.Base.{◌≡◌, refl, true, Bytes, if◌then◌else◌, arith, inl, inr, Bool-cases}
use sdns.Api.{
  exists_is, success, not_found, status_ok, status_not_found, exists_block, get_block, set_block,
  remove_block,
}
use sdns.Cache.BlockCache
use sdns.Cache.BlockCache.{BlockCache}
use sdns.Cache.BlockCache.Reads.{
  IsValid, same_name, exists-set, exists-remove, get-eq-exists, set-IsValid, remove-IsValid,
}

module _ (fqdn : Bytes → Bytes) where
  get_block-eq-exists :
      (key : Bytes) (c : BlockCache)
      → IsValid c
      → get_block fqdn key c ≡ (
          if BlockCache.exists (fqdn key) c
          then (c, status_ok, success)
          else (c, status_not_found, not_found key))
  unfolding get_block
  get_block-eq-exists key c h =
      rw (get-eq-exists (fqdn key) c h) (elim (Bool-cases (BlockCache.exists (fqdn key) c)) [
        | inl e ↦ rw e refl
        | inr e ↦ rw e refl
      ])

  -- On a valid block list, after a key is set, `get` finds every key with the same closed name up
  -- to case; after it is removed, `get` answers 404 for them; other keys are answered as before.
  pub get_block_lem :
      (key j : Bytes) (c : BlockCache)
      → IsValid c
      → ((get_block fqdn j (set_block fqdn key c).0).1
          ≡ (if same_name (fqdn key) (fqdn j) then 200 else (get_block fqdn j c).1))
        × ((get_block fqdn j (remove_block fqdn key c).0).1
            ≡ (if same_name (fqdn key) (fqdn j) then 404 else (get_block fqdn j c).1))
  unfolding set_block remove_block
  get_block_lem key j c h =
      rw
        (
          get_block-eq-exists j _ (set-IsValid (fqdn key) h),
          get_block-eq-exists j _ (remove-IsValid (fqdn key) h),
          get_block-eq-exists j c h,
          exists-set (fqdn key) (fqdn j) c,
          exists-remove (fqdn key) (fqdn j) h,
        )
        (ground arith)

  -- `exists` does not close its key: after a key is set, it is reported as it was before, unless the
  -- key is the same name as its closed form.
  pub exists_block-set_block :
      (key : Bytes) (c : BlockCache)
      → (exists_block key (set_block fqdn key c).0).2
        ≡ (if same_name (fqdn key) key then exists_is true else (exists_block key c).2)
  unfolding exists_block set_block
  exists_block-set_block key c = rw (exists-set (fqdn key) key c) (ground arith)
