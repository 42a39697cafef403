-- ===== src/Updater/Downloads/Contents.antt =====
-- The files after the downloads, whatever the order in which they end (updater.go, `fetchBlocklist`).
use mathlib.Core.List.{
  Perm, Mem, mem-cons_self, mem-cons_of_mem, not-mem-nil, eq-or-mem_of_mem-cons,
}
use mathlib.Core.List.Perm
use mathlib.Core.Path.{subst}
use mathlib.Core.Logic.{∥∥₁_elim}
use sdns.Base.{
  ℕ, ◌≡◌, ◌≢◌, ◌⊎◌, refl, sym, ap, ◌∙◌, Bool, true, List, [], ◌∷◌, Bytes, bytes_eq, bytes_eq_iff,
  bytes_Eq, Option, some, All, arith, Bool-cases, inl, inr,
}
use sdns.Base.Map
use sdns.Updater.Downloads.{
  Got, unreachable, partial, complete, download_blocklist, download_all, fetch_names,
}
use sdns.Updater.Downloads.Names.{IsApart, fetch_names-IsApart}

-- at most one download has each file
abbrev IsUnique : List (Bytes × Bytes) → Type 0
IsUnique ds = (uri uri' name : Bytes) → Mem (uri, name) ds → Mem (uri', name) ds → uri ≡ uri'

not_among :
    (later : List (Bytes × Bytes)) (uri name : Bytes)
    → All (λ p. p.1 ≢ name) later
    → ¬ Mem (uri, name) later
not_among [] uri name h m = not-mem-nil m
not_among (p ∷ later) uri name h m = ∥∥₁_elim (eq-or-mem_of_mem-cons m) (hlevel) (λ c. elim c [
  | inl e ↦ h.0 (sym (ap (λ (q : Bytes × Bytes). q.1) e))
  | inr m' ↦ not_among later uri name h.1 m'
])

name_of_pair : {p q : Bytes × Bytes} → p ≡ q → p.1 ≡ q.1
name_of_pair e = ap (λ (q : Bytes × Bytes). q.1) e

uri_of_pair : {p q : Bytes × Bytes} → p ≡ q → p.0 ≡ q.0
uri_of_pair e = ap (λ (q : Bytes × Bytes). q.0) e

apart-IsUnique : (ds : List (Bytes × Bytes)) → IsApart ds → IsUnique ds
apart-IsUnique [] h uri uri' name m m' = absurd (not-mem-nil m)
apart-IsUnique ((u, n) ∷ later) h uri uri' name m m' =
    ∥∥₁_elim (eq-or-mem_of_mem-cons m) (hlevel) (λ c.
      ∥∥₁_elim (eq-or-mem_of_mem-cons m') (hlevel) (λ c'. elim c [
        | inl e ↦ elim c' [
          | inl e' ↦ uri_of_pair e ∙ sym (uri_of_pair e')
          | inr k' ↦
              absurd
                (not_among later uri' n h.0 (subst (λ x. Mem (uri', x) later) (name_of_pair e) k'))
        ]
        | inr k ↦ elim c' [
          | inl e' ↦
              absurd
                (not_among later uri n h.0 (subst (λ x. Mem (uri, x) later) (name_of_pair e') k))
          | inr k' ↦ apart-IsUnique later h.1 uri uri' name k k'
        ]
      ]))

Got-cases :
    (g : Got)
    → (g ≡ unreachable) ⊎ (((b : Bytes) × (g ≡ partial b)) ⊎ ((b : Bytes) × (g ≡ complete b)))
Got-cases unreachable = inl refl
Got-cases (partial b) = inr (inl (b, refl))
Got-cases (complete b) = inr (inr (b, refl))

module _ (may_create : Bytes → Bool) (get : Bytes → Got) (uri name body : Bytes)
    (created : may_create name ≡ true) (got : get uri ≡ complete body) where
  -- a download of the file writes the body, and another one leaves the file
  abbrev Agrees : Bytes × Bytes → Type 0
  Agrees p = p.1 ≡ name → p.0 ≡ uri

  download_writes :
      (u n : Bytes) (files : List (Bytes × Bytes))
      → u ≡ uri
      → n ≡ name
      → Map.lookup name (download_blocklist may_create get u n files).0 ≡ some body
  unfolding download_blocklist
  download_writes u n files e f =
      ground (arith, Map.lookup-insert n name body files, bytes_eq_iff n name)

  download_keeps :
      (p : Bytes × Bytes) (files : List (Bytes × Bytes))
      → Agrees p
      → Map.lookup name files ≡ some body
      → Map.lookup name (download_blocklist may_create get p.0 p.1 files).0 ≡ some body
  unfolding download_blocklist
  download_keeps (u, n) files agrees h = elim (Bool-cases (bytes_eq n name)) [
    | inl e ↦ let f = (bytes_eq_iff n name).0 e in download_writes u n files (agrees f) f
    | inr e ↦ elim (Got-cases (get u)) [
      | inl f ↦ ground (arith, Map.lookup-insert n name [] files)
      | inr (inl (part, f)) ↦ ground (arith, Map.lookup-insert n name part files)
      | inr (inr (all, f)) ↦ ground (arith, Map.lookup-insert n name all files)
    ]
  ]

  download_all_keeps :
      (ds : List (Bytes × Bytes)) (files : List (Bytes × Bytes))
      → ((p : Bytes × Bytes) → Mem p ds → Agrees p)
      → Map.lookup name files ≡ some body
      → Map.lookup name (download_all may_create get ds files) ≡ some body
  unfolding download_all
  download_all_keeps [] files agree h = h
  download_all_keeps ((u, n) ∷ ds) files agree h =
      download_all_keeps ds _ (λ p m. agree p (mem-cons_of_mem _ m))
        (download_keeps (u, n) files (agree (u, n) mem-cons_self) h)

  download_all_contains :
      (ds : List (Bytes × Bytes)) (files : List (Bytes × Bytes))
      → ((p : Bytes × Bytes) → Mem p ds → Agrees p)
      → Mem (uri, name) ds
      → Map.lookup name (download_all may_create get ds files) ≡ some body
  unfolding download_all
  download_all_contains [] files agree m = absurd (not-mem-nil m)
  download_all_contains ((u, n) ∷ ds) files agree m =
      ∥∥₁_elim (eq-or-mem_of_mem-cons m) (hlevel) (λ c. elim c [
        | inl e ↦
            download_all_keeps ds _ (λ p k. agree p (mem-cons_of_mem _ k))
              (download_writes u n files (sym (uri_of_pair e)) (sym (name_of_pair e)))
        | inr k ↦ download_all_contains ds _ (λ p k'. agree p (mem-cons_of_mem _ k')) k
      ])

-- In whatever order the downloads of the configured lists end: a list that is downloaded completely,
-- to a file that can be made, is there as a whole in the end, since no other download has its file.
pub download_all_whole :
    (host_of : Bytes → Option Bytes) (may_create : Bytes → Bool) (get : Bytes → Got)
    (uris : List Bytes) (seen : List (Bytes × ℕ)) (ds order : List (Bytes × Bytes))
    (uri name body : Bytes) (files : List (Bytes × Bytes))
    → fetch_names host_of uris seen ≡ some ds
    → Perm ds order
    → Mem (uri, name) ds
    → may_create name ≡ true
    → get uri ≡ complete body
    → Map.lookup name (download_all may_create get order files) ≡ some body
download_all_whole host_of may_create get uris seen ds order uri name body files e p m created got =
    let unique = apart-IsUnique ds (fetch_names-IsApart host_of uris seen ds e) in
    download_all_contains may_create get uri name body created got order files
      (λ q k i. unique q.0 uri name (subst (λ x. Mem (q.0, x) ds) i ((Perm.mem_iff p).1 k)) m)
      ((Perm.mem_iff p).0 m)
