-- ===== src/Egress/Hosts.antt =====
-- What a host pattern covers.
use mathlib.Core.List.{reverse, reverse-reverse, reverse-append}
use kibitz.Prelude.{
  ◌≡◌, ◌↔◌, refl, sym, ap, ◌∙◌, true, false, [], ◌∷◌, ◌++◌, Bytes, has_prefix, has_suffix, arith,
  length, length-append, Bool-cases, inl, inr,
}
use kibitz.Egress.{match_host}

has_prefix-append : (s t : Bytes) → has_prefix (s ++ t) s ≡ true
has_prefix-append [] [] = refl
has_prefix-append [] (c ∷ t) = refl
has_prefix-append (c ∷ s) t = ground (arith, has_prefix-append s t)

-- The rest of a text behind its prefix.
has_prefix-rest : (s t : Bytes) → has_prefix s t ≡ true → (r : Bytes) × (s ≡ t ++ r)
has_prefix-rest s [] h = (s, refl)
has_prefix-rest [] (d ∷ t) h = cc
has_prefix-rest (c ∷ s) (d ∷ t) h =
    let (r, e) = has_prefix-rest s t (ground arith) in (r, ground arith)

pub has_suffix_iff : (s t : Bytes) → (has_suffix s t ≡ true) ↔ ((l : Bytes) × (s ≡ l ++ t))
has_suffix_iff s t = (
  λ h.
      let (r, e) = has_prefix-rest (reverse s) (reverse t) h in
      (
        reverse r,
        sym (reverse-reverse s)
            ∙ ap reverse e
            ∙ reverse-append (reverse t) r
            ∙ ap (λ u. reverse r ++ u) (reverse-reverse t),
      ),
  λ (l, e).
      ap (λ u. has_prefix (reverse u) (reverse t)) e
      ∙ ap (λ u. has_prefix u (reverse t)) (reverse-append l t)
      ∙ has_prefix-append (reverse t) (reverse l),
)

not_own_suffix : (l d : Bytes) → d ≡ l ++ (b'.' ∷ d) → ⊥
not_own_suffix l d e = omega (arith, ap length e, length-append {0} l (b'.' ∷ d))

-- The pattern "*.domain" covers exactly the hosts that end in ".domain", and not the domain itself.
pub match_host_wildcard :
    (domain host : Bytes)
    → ((match_host (b'*' ∷ b'.' ∷ domain) host ≡ true)
        ↔ ((l : Bytes) × (host ≡ l ++ (b'.' ∷ domain))))
      × (match_host (b'*' ∷ b'.' ∷ domain) domain ≡ false)
match_host_wildcard domain host = (
  unfold match_host in has_suffix_iff host (b'.' ∷ domain),
  elim (Bool-cases (match_host (b'*' ∷ b'.' ∷ domain) domain)) [
    | inl h ↦
        let (l, e) = (has_suffix_iff domain (b'.' ∷ domain)).0 (unfold match_host in h) in
        absurd (not_own_suffix l domain e)
    | inr h ↦ h
  ],
)
