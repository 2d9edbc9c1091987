-- ===== src/Access/Keys.antt =====
-- Which keys are accepted.
use linkex.Shared.{
  ℕ, zero, suc, ◌≤◌, ◌<◌, max, ◌≡◌, refl, sym, ap, ◌∙◌, ◌↔◌, ◌⊎◌, inl, inr, Bool, true, false, ◌||◌,
  none, List, [], ◌∷◌, arith, nat_eq, string_eq, Bool-cases, length, is_empty, All,
}
use linkex.Access.{Key, resize, ct_eq, ct_match, matched, check_key}

-- A header value and a configured key have no byte zero.
abbrev pub IsPrintable : Key → Type 0
IsPrintable key = All (λ byte. 0 < byte) key

ct_eq-resize :
    (n : ℕ) (s c : Key)
    → length s ≤ n
    → length c ≤ n
    → IsPrintable s
    → IsPrintable c
    → ct_eq (resize n s) (resize n c) ≡ true
    → s ≡ c
unfolding ct_eq resize
ct_eq-resize zero [] [] a b p q h = refl
ct_eq-resize zero [] (y ∷ c) a b p q h = absurd (omega (arith, b))
ct_eq-resize zero (x ∷ s) c a b p q h = absurd (omega (arith, a))
ct_eq-resize (suc n) [] [] a b p q h = refl
ct_eq-resize (suc n) [] (y ∷ c) a b p (positive, q) h = absurd (ground arith)
ct_eq-resize (suc n) (x ∷ s) [] a b (positive, p) q h = absurd (ground arith)
ct_eq-resize (suc n) (x ∷ s) (y ∷ c) a b (_, p) (_, q) h =
    let rest : ct_eq (resize n s) (resize n c) ≡ true = ground arith in
    let same : s ≡ c = ct_eq-resize n s c (omega (arith, a)) (omega (arith, b)) p q rest in
    let first : x ≡ y = ground arith in ap (◌∷◌ x) same ∙ ap (λ z. z ∷ c) first

ct_eq_self : (s : Key) → ct_eq s s ≡ true
unfolding ct_eq
ct_eq_self [] = refl
ct_eq_self (x ∷ s) = rw ((nat_eq.same_iff x x).1 refl, ct_eq_self s)

pub ct_match_iff : (s c : Key) → IsPrintable s → IsPrintable c → (ct_match s c ≡ true) ↔ (s ≡ c)
unfolding ct_match
ct_match_iff s c p q = (
  λ h. ct_eq-resize (max (length s) (length c)) s c (omega arith) (omega arith) p q h,
  λ e. ap (λ x. ct_match s x) (sym e) ∙ ct_eq_self (resize (max (length s) (length s)) s),
)

-- The key is one of the configured ones.
abbrev pub Member : Key → List Key → Type 0
Member s [] = ⊥
Member s (c ∷ keys) = (s ≡ c) ⊎ Member s keys

or_cases : (a b : Bool) → (a || b) ≡ true → (a ≡ true) ⊎ (b ≡ true)
or_cases true b h = inl refl
or_cases false b h = inr h

or_right : (a b : Bool) → b ≡ true → (a || b) ≡ true
or_right true b h = refl
or_right false b h = h

matched_iff :
    (s : Key) (keys : List Key)
    → IsPrintable s
    → All IsPrintable keys
    → (matched s keys ≡ true) ↔ Member s keys
unfolding matched
matched_iff s [] p ps = (λ h. cc, λ h. absurd h)
matched_iff s (c ∷ keys) p (q, ps) =
    let one = ct_match_iff s c p q in
    let more = matched_iff s keys p ps in
    (
      λ h. elim (or_cases (ct_match s c) (matched s keys) h) [
        | inl k ↦ inl (one.0 k)
        | inr k ↦ inr (more.0 k)
      ],
      λ h. elim h [
        | inl e ↦ rw (one.1 e)
        | inr m ↦ or_right (ct_match s c) (matched s keys) (more.1 m)
      ],
    )

-- Where keys are required, and neither the supplied key nor a configured one has a byte zero: a
-- request passes the check exactly if its key is not empty and is one of the configured ones,
-- although shorter keys are padded for the comparison.
pub check_key_iff :
    (s : Key) (keys : List Key)
    → IsPrintable s
    → All IsPrintable keys
    → (check_key true keys s ≡ none) ↔ ((is_empty s ≡ false) × Member s keys)
unfolding check_key
check_key_iff s keys p ps =
    let all = matched_iff s keys p ps in
    elim (Bool-cases (is_empty s)) [
      | inl e ↦ rw e (λ h. cc, λ h. cc (h.0))
      | inr e ↦ elim (Bool-cases (matched s keys)) [
        | inl m ↦ rw (e, m) (λ h. (refl, all.0 m), λ h. refl)
        | inr m ↦ rw (e, m) (λ h. cc, λ h. cc (all.1 (h.1), m))
      ]
    ]
