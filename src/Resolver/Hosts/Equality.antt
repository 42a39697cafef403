-- ===== src/Resolver/Hosts/Equality.antt =====
-- Which lists of servers are equal (resolver.go, `equalServers`).
use mathlib.Core.List.{Perm, Permᴰ}
use mathlib.Core.List.Perm
use mathlib.Core.Logic.{∥∥₁_elim}
use sdns.Base.{
  suc, ◌≡◌, ◌↔◌, refl, ◌∙◌, sym, ap, true, ◌||◌, List, [], ◌∷◌, Bytes, bytes_eq_iff, length, arith,
  Bool-cases, inl, inr,
}
use sdns.Cache.Servers.{AuthServers}
use sdns.Cache.Servers.Sorting.{hosts}
use sdns.Resolver.Hosts.{str_le, insert_str, sort_strings, same_strings, equal_servers}

str_le_total : (s t : Bytes) → (str_le s t || str_le t s) ≡ true
unfolding str_le
str_le_total [] t = refl
str_le_total (a ∷ s) [] = refl
str_le_total (a ∷ s) (b ∷ t) = ground (arith, str_le_total s t)

str_le_antisymm : (s t : Bytes) → str_le s t ≡ true → str_le t s ≡ true → s ≡ t
unfolding str_le
str_le_antisymm [] [] h k = refl
str_le_antisymm [] (b ∷ t) h k = ground arith
str_le_antisymm (a ∷ s) [] h k = ground arith
str_le_antisymm (a ∷ s) (b ∷ t) h k = ground (arith, str_le_antisymm s t)

str_le_trans : (s t u : Bytes) → str_le s t ≡ true → str_le t u ≡ true → str_le s u ≡ true
unfolding str_le
str_le_trans [] t u h k = refl
str_le_trans (a ∷ s) [] u h k = ground arith
str_le_trans (a ∷ s) (b ∷ t) [] h k = ground arith
str_le_trans (a ∷ s) (b ∷ t) (c ∷ u) h k = ground (arith, str_le_trans s t u)

insert_str-perm : (s : Bytes) (ts : List Bytes) → Perm (insert_str s ts) (s ∷ ts)
unfolding insert_str
insert_str-perm s [] = Perm.refl (s ∷ [])
insert_str-perm s (t ∷ ts) = elim (Bool-cases (str_le s t)) [
  | inl e ↦ rw e (Perm.refl (s ∷ t ∷ ts))
  | inr e ↦ rw e (Perm.trans (Perm.cons t (insert_str-perm s ts)) (Perm.swap s t ts))
]

sort_strings-perm : (ss : List Bytes) → Perm (sort_strings ss) ss
unfolding sort_strings
sort_strings-perm [] = Perm.refl []
sort_strings-perm (s ∷ ss) = Perm.trans (insert_str-perm s _) (Perm.cons s (sort_strings-perm ss))

-- two strings can be inserted in either order
insert_str_comm :
    (s t : Bytes) (us : List Bytes)
    → insert_str s (insert_str t us) ≡ insert_str t (insert_str s us)
unfolding insert_str
insert_str_comm s t [] = ground (arith, str_le_total s t, str_le_antisymm s t)
insert_str_comm s t (u ∷ us) = ground (
  arith,
  str_le_total s t,
  str_le_antisymm s t,
  str_le_trans s t u,
  str_le_trans t s u,
  insert_str_comm s t us,
)

sort_strings_of_perm : {ss ts : List Bytes} → Permᴰ ss ts → sort_strings ss ≡ sort_strings ts
unfolding sort_strings
sort_strings_of_perm Permᴰ.nil = refl
sort_strings_of_perm (Permᴰ.cons {l₁} {l₂} e p) = cc (sort_strings_of_perm p)
sort_strings_of_perm (Permᴰ.swap {a} {b} {l = l} e f) = cc (insert_str_comm a b (sort_strings l))
sort_strings_of_perm (Permᴰ.trans p q) = sort_strings_of_perm p ∙ sort_strings_of_perm q

same_strings_iff :
    (ss ts : List Bytes) → length ss ≡ length ts → (same_strings ss ts ≡ true) ↔ (ss ≡ ts)
unfolding same_strings
same_strings_iff [] [] e = (λ h. refl, λ h. refl)
same_strings_iff [] (t ∷ ts) e = ground arith
same_strings_iff (s ∷ ss) [] e = ground arith
same_strings_iff (s ∷ ss) (t ∷ ts) e = ground (arith, bytes_eq_iff s t, same_strings_iff ss ts)

length-insert_str : (s : Bytes) (ts : List Bytes) → length (insert_str s ts) ≡ suc (length ts)
unfolding insert_str
length-insert_str s [] = refl
length-insert_str s (t ∷ ts) = ground (arith, length-insert_str s ts)

length-sort_strings : (ss : List Bytes) → length (sort_strings ss) ≡ length ss
unfolding sort_strings
length-sort_strings [] = refl
length-sort_strings (s ∷ ss) =
    ground (arith, length-insert_str s (sort_strings ss), length-sort_strings ss)

length_of_perm : {ss ts : List Bytes} → Permᴰ ss ts → length ss ≡ length ts
length_of_perm Permᴰ.nil = refl
length_of_perm (Permᴰ.cons e p) = ap suc (length_of_perm p)
length_of_perm (Permᴰ.swap e f) = refl
length_of_perm (Permᴰ.trans p q) = length_of_perm p ∙ length_of_perm q

-- Two lists of servers are equal exactly when the hosts of the one are a reordering of the hosts of the
-- other; round-trip times and counters do not matter.
pub equal_servers_iff :
    (s1 s2 : AuthServers) → (equal_servers s1 s2 ≡ true) ↔ Perm (hosts s1.list) (hosts s2.list)
unfolding equal_servers
equal_servers_iff s1 s2 =
    let a = hosts s1.list in
    let b = hosts s2.list in
    let same = λ (e : length a ≡ length b).
      same_strings_iff (sort_strings a) (sort_strings b)
        (length-sort_strings a ∙ e ∙ sym (length-sort_strings b)) in
    (
      λ h.
          let e : length a ≡ length b = ground arith in
          let sorted : sort_strings a ≡ sort_strings b = (same e).0 (ground arith) in
          Perm.trans (Perm.symm (sort_strings-perm a)) (rw sorted (sort_strings-perm b)),
      λ p. ∥∥₁_elim p (hlevel) (λ d.
          ground (arith, length_of_perm d, (same (length_of_perm d)).1 (sort_strings_of_perm d))),
    )
