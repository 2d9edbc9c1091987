-- ===== src/RateLimit/Hits.antt =====
-- Counting the hits of one identity in a window.
use linkex.Shared.{
  ℕ, ◌+◌, ◌≤◌, ◌<◌, ◌≡◌, refl, ◌≢◌, inl, inr, Bool, false, ◌&&◌, none, some, [], ◌∷◌, ◌++◌, arith,
  ltb, leb, nat_eq, string_eq, if◌then◌else◌, Bool-cases, Option-cases, length, All, All-append,
}
use linkex.RateLimit.{Hits, age, expire, back, is_recent}

abbrev pub within : ℕ → ℕ → ℕ → Bool
within lo w t = leb lo t && leb t (lo + w)

unfoldable pub count : ℕ → ℕ → Hits → ℕ
count lo w [] = 0
count lo w (t ∷ hits) = (if within lo w t then 1 else 0) + count lo w hits

pub count-le-length : (lo w : ℕ) (hits : Hits) → count lo w hits ≤ length hits
unfolding count
count-le-length lo w [] = omega arith
count-le-length lo w (t ∷ hits) = ground (arith, count-le-length lo w hits)

pub count-append :
    (lo w : ℕ) (hits more : Hits) → count lo w (hits ++ more) ≡ count lo w hits + count lo w more
unfolding count
count-append lo w [] more = omega arith
count-append lo w (t ∷ hits) more = omega (arith, count-append lo w hits more)

-- What `expire` drops lies before every window that reaches up to now.
pub count-expire :
    (now lo w : ℕ) (hits : Hits) → now ≤ lo + w → count lo w (expire now w hits) ≡ count lo w hits
unfolding count expire
count-expire now lo w [] h = refl
count-expire now lo w (t ∷ hits) h = ground (arith, count-expire now lo w hits h)

abbrev pub Ascending : Hits → Type 0
Ascending [] = Unit
Ascending (t ∷ hits) = All (λ u. t ≤ u) hits × Ascending hits

pub expire-All : (P : ℕ → Type 0) (now w : ℕ) (hits : Hits) → All P hits → All P (expire now w hits)
unfolding expire
expire-All P now w [] h = tt
expire-All P now w (t ∷ hits) (p, h) = elim (Bool-cases (ltb w (age now t))) [
  | inl e ↦ rw e (expire-All P now w hits h)
  | inr e ↦ rw e (p, h)
]

pub Ascending-expire : (now w : ℕ) (hits : Hits) → Ascending hits → Ascending (expire now w hits)
unfolding expire
Ascending-expire now w [] h = tt
Ascending-expire now w (t ∷ hits) (p, h) = elim (Bool-cases (ltb w (age now t))) [
  | inl e ↦ rw e (Ascending-expire now w hits h)
  | inr e ↦ rw e (p, h)
]

pub Ascending-append :
    (hits : Hits) (now : ℕ)
    → Ascending hits
    → All (λ t. t ≤ now) hits
    → Ascending (hits ++ now ∷ [])
Ascending-append [] now h k = (tt, tt)
Ascending-append (t ∷ hits) now (p, h) (q, k) =
    (All-append (λ u. t ≤ u) hits (now ∷ []) p (q, tt), Ascending-append hits now h k)

head-le-back : (t b : ℕ) (hits : Hits) → Ascending (t ∷ hits) → back (t ∷ hits) ≡ some b → t ≤ b
unfolding back
head-le-back t b [] h e = ground arith
head-le-back t b (u ∷ hits) ((p, _), h) e = omega (arith, head-le-back u b hits h e)

count-before :
    (lo w b : ℕ) (hits : Hits) → Ascending hits → back hits ≡ some b → b < lo → count lo w hits ≡ 0
unfolding count back
count-before lo w b [] h e k = refl
count-before lo w b (t ∷ []) h e k = ground arith
count-before lo w b (t ∷ u ∷ hits) (p, h) e k =
    ground (arith, count-before lo w b (u ∷ hits) h e k, head-le-back u b hits h e)

back-cons : (u : ℕ) (hits : Hits) → back (u ∷ hits) ≢ none
unfolding back
back-cons u [] = cc
back-cons u (v ∷ hits) = back-cons v hits

count-no_back : (lo w : ℕ) (hits : Hits) → back hits ≡ none → count lo w hits ≡ 0
unfolding count back
count-no_back lo w [] e = refl
count-no_back lo w (t ∷ []) e = cc
count-no_back lo w (t ∷ u ∷ hits) e = absurd (back-cons u hits e)

-- A bucket that `retain` drops holds nothing in a window that reaches up to now.
pub count-stale :
    (now lo w : ℕ) (hits : Hits)
    → Ascending hits
    → now ≤ lo + w
    → is_recent now w hits ≡ false
    → count lo w hits ≡ 0
count-stale now lo w hits h k e = elim (Option-cases (back hits)) [
  | inl empty ↦ count-no_back lo w hits empty
  | inr (b, last) ↦ count-before lo w b hits h last (ground arith)
]
