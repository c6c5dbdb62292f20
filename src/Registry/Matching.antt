-- ===== src/Registry/Matching.antt =====
-- Which URIs a pattern matches, and that what matches is found.
use native.Mathlib.Decide.{ℕ_discrete}
use mathlib.Core.List.{Mem, mem-cons_self, mem-cons_of_mem}
use mathlib.Core.Path.{subst}
use crossbar.Base.{
  ℕ, zero, suc, ◌+◌, ◌≤◌, ◌<◌, ◌≡◌, refl, sym, ap, ◌∙◌, true, ◌&&◌, inl, inr, Option, some, List,
  [], ◌∷◌, ◌++◌, arith, bytes_eq_refl, Bool-cases, Option-cases, eq→==,
}
use crossbar.Registry.State.{Entry, is_active, uri_of}
use crossbar.Registry.Discover.{starts_with, strip_star, matches, topic_of, discover_from}

starts_with-append : (prefix rest : List ℕ) → starts_with (prefix ++ rest) prefix ≡ true
unfolding starts_with
starts_with-append [] rest = refl
starts_with-append (c ∷ prefix) rest = rw (eq→== c c refl) (starts_with-append prefix rest)

strip_star-append : (prefix : List ℕ) → strip_star (prefix ++ b'*' ∷ []) ≡ some prefix
unfolding strip_star
strip_star-append [] = refl
strip_star-append (c ∷ []) = refl
strip_star-append (c ∷ d ∷ s) = rw (strip_star-append (d ∷ s)) refl

strip_star-eq-some : (s prefix : List ℕ) → strip_star s ≡ some prefix → s ≡ prefix ++ b'*' ∷ []
unfolding strip_star
strip_star-eq-some [] prefix e = cc
strip_star-eq-some (c ∷ []) prefix e = ground arith
strip_star-eq-some (c ∷ d ∷ s) prefix e = elim (Option-cases (strip_star (d ∷ s))) [
  | inl absent ↦ cc (rw absent at e)
  | inr (p, found) ↦
      let whole : ◌≡◌ {A = Option (List ℕ)} (some (c ∷ p)) (some prefix) = rw found at e in
      cc (strip_star-eq-some (d ∷ s) p found)
]

-- A pattern that ends in a star matches all that begins with the rest of it.
pub matches-append : (prefix rest : List ℕ) → matches (prefix ++ b'*' ∷ []) (prefix ++ rest) ≡ true
unfolding matches
matches-append prefix rest = rw (matches, strip_star-append prefix) (starts_with-append prefix rest)

pub matches_self : (uri : List ℕ) → matches uri uri ≡ true
unfolding matches
matches_self uri = elim (Option-cases (strip_star uri)) [
  | inl plain ↦ rw (matches, plain) (bytes_eq_refl uri)
  | inr (p, star) ↦
      rw (matches, star)
        (subst (λ s. starts_with s p ≡ true) (sym (strip_star-eq-some uri p star))
          (starts_with-append p (b'*' ∷ [])))
]

pub discover_from-Mem :
    (pattern : List ℕ) (n i j : ℕ) (f : ℕ → Entry)
    → i ≤ j
    → j < i + n
    → is_active (f j) ≡ true
    → matches pattern (uri_of (f j)) ≡ true
    → Mem (topic_of (f j)) (discover_from pattern n i f)
unfolding discover_from
discover_from-Mem pattern zero i j f low high active fits = absurd (omega arith)
discover_from-Mem pattern (suc n) i j f low high active fits = elim (ℕ_discrete i j) [
  | yes e ↦
      let active' : is_active (f i) ≡ true = ap (λ k. is_active (f k)) e ∙ active in
      let fits' : matches pattern (uri_of (f i)) ≡ true =
        ap (λ k. matches pattern (uri_of (f k))) e ∙ fits in
      rw (active', fits')
        (subst (λ k. Mem (topic_of (f k)) (topic_of (f i) ∷ discover_from pattern n (i + 1) f)) e
          mem-cons_self)
  | no ne ↦
      let ih = discover_from-Mem pattern n (i + 1) j f (omega arith) (omega arith) active fits in
      elim (Bool-cases (is_active (f i) && matches pattern (uri_of (f i)))) [
        | inl t ↦ rw t (mem-cons_of_mem (topic_of (f i)) ih)
        | inr t ↦ rw t ih
      ]
]
