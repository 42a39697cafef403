-- ===== src/Records/Random/Draws.antt =====
-- What the random helpers of utils.go give.
use mathlib.Core.List.{
  Perm, Mem, mem-cons_self, mem-cons_of_mem, not-mem-nil, eq-or-mem_of_mem-cons,
}
use mathlib.Core.List.Perm
use mathlib.Core.Logic.{∥∥₁_elim}
use mathlib.Core.Path.{subst}
use native.Mathlib.Bridge.{le_prop}
use sdns.Base.{
  ℕ, zero, suc, ◌+◌, ◌-◌, ◌≡◌, ◌≢◌, ◌<◌, refl, ap, ◌∙◌, List, [], ◌∷◌, map, Bytes, some, get_elem?,
  get_or, length, All, arith, inl, inr,
}
use sdns.Handler.Env.{Proto, udp, tcp, https}
use sdns.Records.Random.{rand_int, shuffle, local_address}

get_elem-Mem {ℓ} :
    {A : Type ℓ} (xs : List A) (i : ℕ)
    → i < length xs
    → (x : A) × (get_elem? xs i ≡ some x) × Mem x xs
get_elem-Mem [] i h = absurd (omega arith)
get_elem-Mem (x ∷ xs) zero h = (x, refl, mem-cons_self)
get_elem-Mem (x ∷ xs) (suc i) h =
    let (y, e, m) = get_elem-Mem xs i (omega arith) in (y, e, mem-cons_of_mem x m)

rand_int-below :
    (intn : ℕ → ℕ) (drawn : (n : ℕ) → 0 < n → intn n < n) (n : ℕ)
    → 0 < n
    → (k : ℕ) × (rand_int intn 0 n ≡ some k) × (k < n)
unfolding rand_int
rand_int-below intn drawn n h =
    (intn (n - 0) + 0, ground arith, (let d = drawn (n - 0) (omega arith) in omega arith))

local_address_at :
    (intn : ℕ → ℕ) (ip : Bytes) (ips : List Bytes) (proto : Proto) (k : ℕ) (local : Bytes)
    → proto ≢ https
    → rand_int intn 0 (length (ip ∷ ips)) ≡ some k
    → get_elem? (ip ∷ ips) k ≡ some local
    → local_address intn (ip ∷ ips) proto ≡ some (some local)
unfolding local_address
local_address_at intn ip ips udp k local h e f = rw (e, f) refl
local_address_at intn ip ips tcp k local h e f = rw (e, f) refl
local_address_at intn ip ips https k local h e f = absurd (h refl)

-- With addresses configured, a client over UDP or TCP is bound to one of them, and the draw is never
-- out of range.
local_address-Mem :
    (intn : ℕ → ℕ) (drawn : (n : ℕ) → 0 < n → intn n < n) (ip : Bytes) (ips : List Bytes)
    (proto : Proto)
    → proto ≢ https
    → (local : Bytes) × (local_address intn (ip ∷ ips) proto ≡ some (some local))
      × Mem local (ip ∷ ips)
local_address-Mem intn drawn ip ips proto h =
    let (k, e, below) = rand_int-below intn drawn (length (ip ∷ ips)) (omega arith) in
    let (local, f, m) = get_elem-Mem (ip ∷ ips) k below in
    (local, local_address_at intn ip ips proto k local h e f, m)

-- the indices of a list, from a number on
abbrev indices : ℕ → ℕ → List ℕ
indices start zero = []
indices start (suc n) = start ∷ indices (suc start) n

indices_below : (start n i : ℕ) → Mem i (indices start n) → i < start + n
indices_below start zero i m = absurd (not-mem-nil m)
indices_below start (suc n) i m = ∥∥₁_elim (eq-or-mem_of_mem-cons m) le_prop (λ c. elim c [
  | inl e ↦ omega arith
  | inr k ↦ let ih = indices_below (suc start) n i k in omega arith
])

All-of_mem : (is : List ℕ) (n : ℕ) → ((i : ℕ) → Mem i is → i < n) → All (λ i. i < n) is
All-of_mem [] n h = tt
All-of_mem (i ∷ is) n h = (h i mem-cons_self, All-of_mem is n (λ j m. h j (mem-cons_of_mem i m)))

module _ {ℓ} {A : Type ℓ} where
  get_elem-get_or :
      (vals : List A) (i : ℕ) (d : A) → i < length vals → get_elem? vals i ≡ some (get_or vals i d)
  get_elem-get_or [] i d h = absurd (omega arith)
  get_elem-get_or (v ∷ vals) zero d h = refl
  get_elem-get_or (v ∷ vals) (suc i) d h = get_elem-get_or vals i d (omega arith)

  shuffle-get_or :
      (perm : List ℕ) (vals : List A) (d : A)
      → All (λ i. i < length vals) perm
      → shuffle perm vals ≡ some (map (λ i. get_or vals i d) perm)
  unfolding shuffle
  shuffle-get_or [] vals d h = refl
  shuffle-get_or (i ∷ perm) vals d h =
      rw (get_elem-get_or vals i d h.0, shuffle-get_or perm vals d h.1) refl

  map-indices :
      (vals : List A) (d : A) (f : ℕ → A) (start : ℕ)
      → ((i : ℕ) → f (start + i) ≡ get_or vals i d)
      → map f (indices start (length vals)) ≡ vals
  map-indices [] d f start h = refl
  map-indices (v ∷ vals) d f start h =
      let next : (i : ℕ) → f (suc start + i) ≡ f (start + suc i) = λ i. ap f (omega arith) in
      let e : start ≡ start + 0 = omega arith in
      rw (ap f e ∙ h 0)
        (ap (λ ret. v ∷ ret) (map-indices vals d f (suc start) (λ i. next i ∙ h (suc i))))

  -- Where the generator gives the indices of the list in some order, the shuffled list has the elements
  -- of the list, each as often as before.
  shuffle-perm :
      (perm : List ℕ) (vals : List A)
      → Perm perm (indices 0 (length vals))
      → (ret : List A) × (shuffle perm vals ≡ some ret) × Perm ret vals
  unfolding shuffle
  shuffle-perm [] [] p = ([], refl, Perm.refl [])
  shuffle-perm (i ∷ perm) [] p = absurd (not-mem-nil ((Perm.mem_iff p).0 mem-cons_self))
  shuffle-perm perm (v ∷ vals) p =
      let all = v ∷ vals in
      let h =
        All-of_mem perm (length all) (λ i m.
          let below = indices_below 0 (length all) i ((Perm.mem_iff p).0 m) in omega arith) in
      (
        map (λ i. get_or all i v) perm,
        shuffle-get_or perm all v h,
        subst (λ xs. Perm (map (λ i. get_or all i v) perm) xs)
            (map-indices all v (λ i. get_or all i v) 0
              (λ i. ap (λ j. get_or all j v) (omega arith)))
            (Perm.map (λ i. get_or all i v) p),
      )
