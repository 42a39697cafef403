-- ===== src/Records/Sections.antt =====
-- The searches and filters of utils.go.
use mathlib.Core.List.{append_assoc, append-nil}
use sdns.Base.{
  ℕ, ◌≡◌, refl, sym, ap, ◌∙◌, Bool, false, not, ◌&&◌, ◌||◌, ◌==◌, List, [], ◌∷◌, ◌++◌, Bytes,
  bytes_eq, to_lower, keep, arith, inl, inr, Bool-cases,
}
use sdns.Dns.{Rr, Msg}
use sdns.Records.{
  upper_name_from, upper_name, mem_types, is_empty, extract_rr_set, is_opt, is_dnssec, drop_into,
  clear_opt, clear_dnssec,
}

-- a dot stands in the text
abbrev pub has_dot : Bytes → Bool
has_dot [] = false
has_dot (c ∷ s) = c == b'.' || has_dot s

upper_name_from_label :
    (whole label rest : Bytes)
    → has_dot label ≡ false
    → upper_name_from whole (label ++ b'.' ∷ rest) ≡ rest
unfolding upper_name_from
upper_name_from_label whole [] rest h = refl
upper_name_from_label whole (c ∷ label) rest h =
    ground (arith, upper_name_from_label whole label rest)

upper_name_from_no_dot : (whole s : Bytes) → has_dot s ≡ false → upper_name_from whole s ≡ whole
unfolding upper_name_from
upper_name_from_no_dot whole [] h = refl
upper_name_from_no_dot whole (c ∷ s) h = ground (arith, upper_name_from_no_dot whole s)

-- `upperName` drops the first label, and leaves a name with no dot as it is.
pub upper_name_lem :
    (label rest : Bytes)
    → has_dot label ≡ false
    → (upper_name (label ++ b'.' ∷ rest) ≡ rest) × (upper_name label ≡ label)
unfolding upper_name
upper_name_lem label rest h =
    (upper_name_from_label _ label rest h, upper_name_from_no_dot label label h)

-- the test by which a record belongs to a set
abbrev pub selects : Bytes → List ℕ → Rr → Bool
selects name types r =
    mem_types r.rrtype types && (is_empty name || bytes_eq name (to_lower r.name))

-- `extractRRSet` keeps the records of the types and, unless the name is empty, of the name.
pub extract_rr_set-eq-keep :
    (rs : List Rr) (name : Bytes) (types : List ℕ)
    → extract_rr_set rs name types ≡ keep (selects name types) rs
unfolding extract_rr_set
extract_rr_set-eq-keep [] name types = refl
extract_rr_set-eq-keep (r ∷ rs) name types = ground (arith, extract_rr_set-eq-keep rs name types)

drop_into-eq-keep :
    (p : Rr → Bool) (out rs : List Rr) → drop_into p out rs ≡ out ++ keep (λ r. not (p r)) rs
unfolding drop_into
drop_into-eq-keep p out [] = sym (append-nil out)
drop_into-eq-keep p out (r ∷ rs) = elim (Bool-cases (p r)) [
  | inl e ↦ rw e (drop_into-eq-keep p out rs)
  | inr e ↦ rw e (drop_into-eq-keep p (out ++ r ∷ []) rs ∙ append_assoc out (r ∷ []) _)
]

pub keep_twice {ℓ} : {A : Type ℓ} (p : A → Bool) (xs : List A) → keep p (keep p xs) ≡ keep p xs
keep_twice p [] = refl
keep_twice p (x ∷ xs) = elim (Bool-cases (p x)) [
  | inl e ↦ rw (e, e) (ap (◌∷◌ x) (keep_twice p xs))
  | inr e ↦ rw e (keep_twice p xs)
]

-- `clearDNSSEC` keeps exactly the answer and authority records that are not RRSIG, NSEC or NSEC3,
-- in their order, and leaves the rest of the message as it is.
pub clear_dnssec-eq-keep :
    (msg : Msg)
    → clear_dnssec msg ≡ record msg {
      answer = keep (λ r. not (is_dnssec r)) msg.answer;
      ns = keep (λ r. not (is_dnssec r)) msg.ns;
    }
unfolding clear_dnssec
clear_dnssec-eq-keep msg =
    rw (drop_into-eq-keep is_dnssec [] msg.answer, drop_into-eq-keep is_dnssec [] msg.ns)

-- `clearOPT` keeps exactly the additional records that are not OPT.
pub clear_opt-eq-keep :
    (msg : Msg) → clear_opt msg ≡ record msg { extra = keep (λ r. not (is_opt r)) msg.extra }
unfolding clear_opt
clear_opt-eq-keep msg = rw (drop_into-eq-keep is_opt [] msg.extra)

-- Clearing twice is clearing once, and the two filters commute.
pub clear_idem :
    (msg : Msg)
    → (clear_dnssec (clear_dnssec msg) ≡ clear_dnssec msg)
      × (clear_opt (clear_opt msg) ≡ clear_opt msg)
      × (clear_opt (clear_dnssec msg) ≡ clear_dnssec (clear_opt msg))
clear_idem msg = (
  simp (clear_dnssec-eq-keep, keep_twice),
  simp (clear_opt-eq-keep, keep_twice),
  simp (clear_opt-eq-keep, clear_dnssec-eq-keep),
)
