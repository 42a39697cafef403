-- ===== src/Cache/BlockCache/Refinement.antt =====
-- The block list as a set of names (cache/block_cache.go). The specification knows neither a map nor
-- lower case: it says of a name whether the last call about it was `Set`.
use sdns.Base.{◌≡◌, refl, Bool, true, false, List, [], ◌∷◌, Bytes, if◌then◌else◌}
use sdns.Cache.BlockCache.{BlockCache, get, remove, set, exists}
use sdns.Cache.BlockCache.Reads.{
  IsValid, set-IsValid, remove-IsValid, same_name, exists-set, exists-remove, get-eq-exists,
}

pub data Op : Type 0 where
  set_name remove_name : Bytes → Op

abbrev pub step : Op → BlockCache → BlockCache
step (set_name key) c = set key c
step (remove_name key) c = remove key c

-- the calls in the order of the lock
unfoldable pub run : List Op → BlockCache → BlockCache
run [] c = c
run (op ∷ ops) c = run ops (step op c)

-- the specification of one call and of several, for one name
abbrev pub after : Op → Bytes → Bool → Bool
after (set_name key) name blocked = if same_name key name then true else blocked
after (remove_name key) name blocked = if same_name key name then false else blocked

unfoldable pub blocked_after : List Op → Bytes → Bool → Bool
blocked_after [] name blocked = blocked
blocked_after (op ∷ ops) name blocked = blocked_after ops name (after op name blocked)

step-IsValid : (op : Op) {c : BlockCache} → IsValid c → IsValid (step op c)
step-IsValid (set_name key) h = set-IsValid key h
step-IsValid (remove_name key) h = remove-IsValid key h

exists-step :
    (op : Op) (name : Bytes) {c : BlockCache}
    → IsValid c
    → exists name (step op c) ≡ after op name (exists name c)
exists-step (set_name key) name {c} h = exists-set key name c
exists-step (remove_name key) name h = exists-remove key name h

-- From a valid block list, after any calls of `Set` and `Remove`, `Exists` says of a name whether the
-- last call about it, in any case of its letters, was `Set`, or what it said before if there was none;
-- and `Get` says the same with its value and with its error.
pub run_refines :
    (ops : List Op) (name : Bytes) (c : BlockCache)
    → IsValid c
    → let blocked = blocked_after ops name (exists name c) in
      (exists name (run ops c) ≡ blocked) × (get name (run ops c) ≡ (blocked, blocked))
unfolding run blocked_after
run_refines [] name c h = (refl, get-eq-exists name c h)
run_refines (op ∷ ops) name c h =
    let (e, f) = run_refines ops name (step op c) (step-IsValid op h) in
    rw (← exists-step op name h) (e, f)
