-- ===== src/Parser/Texts/Clean.antt =====
-- What `text` returns: it is not empty, trimmed, without a tab and without two spaces in a row.
use Prim.Native.Char.{Char}
use linkex.Shared.{
  String, ◌≡◌, refl, sym, Bool, true, false, not, ◌&&◌, ◌||◌, some, inl, inr, arith, Bool-cases,
  both_true, and_true,
}
use linkex.Shared.Options.{bind-some}
use linkex.Shared.Text.{
  is_char, is_nil, is_whitespace, trim, trim_start, trim_end, trim_matches, non_empty,
}
use linkex.Shared.Text.Trimming.{trim_idem}
use linkex.Json.{Value, as_str}
use linkex.Parser.Texts.{crlf, collapse, is_blank, tidy, text}

-- No tab, and no space after a space; `after` says that a space came before.
unfoldable pub is_collapsed : Bool → String → Bool
is_collapsed after String.[] = true
is_collapsed after (String.◌∷◌ c s) =
    not (is_char 9 c) && not (after && is_char 32 c) && is_collapsed (is_char 32 c) s

pub record IsClean (s : String) : Type 0 where
  pub filled : is_nil s ≡ false
  pub trimmed : trim s ≡ s
  pub collapsed : is_collapsed false s ≡ true

-- A text that may follow a space may follow anything.
is_collapsed_weaken :
    (after : Bool) (s : String) → is_collapsed after s ≡ true → is_collapsed false s ≡ true
unfolding is_collapsed
is_collapsed_weaken after String.[] h = refl
is_collapsed_weaken after (String.◌∷◌ c s) h = ground arith

collapse-is_collapsed :
    (in_space started : Bool) (s : String)
    → is_collapsed in_space (collapse in_space started s) ≡ true
unfolding is_collapsed collapse
collapse-is_collapsed in_space started String.[] = refl
collapse-is_collapsed in_space started (String.◌∷◌ c s) = ground (
  arith,
  collapse-is_collapsed (is_blank c) (started || not (is_blank c)) s,
  is_collapsed_weaken true (collapse (is_blank c) (started || not (is_blank c)) s),
)

is_collapsed-trim_start :
    (p : Char → Bool) (s : String)
    → is_collapsed false s ≡ true
    → is_collapsed false (trim_start p s) ≡ true
unfolding is_collapsed trim_start
is_collapsed-trim_start p String.[] h = refl
is_collapsed-trim_start p (String.◌∷◌ c s) h =
    ground (arith, is_collapsed-trim_start p s, is_collapsed_weaken (is_char 32 c) s)

is_collapsed-trim_end :
    (p : Char → Bool) (after : Bool) (s : String)
    → is_collapsed after s ≡ true
    → is_collapsed after (trim_end p s) ≡ true
unfolding is_collapsed trim_end
is_collapsed-trim_end p after String.[] h = refl
is_collapsed-trim_end p after (String.◌∷◌ c s) h =
    let (head, tail) = both_true _ (is_collapsed (is_char 32 c) s) h in
    elim (Bool-cases (p c && is_nil (trim_end p s))) [
      | inl e ↦ rw e
      | inr e ↦ rw (e, and_true _ _ head (is_collapsed-trim_end p (is_char 32 c) s tail))
    ]

is_collapsed-trim : (s : String) → is_collapsed false s ≡ true → is_collapsed false (trim s) ≡ true
unfolding trim trim_matches
is_collapsed-trim s h =
    is_collapsed-trim_end is_whitespace false (trim_start is_whitespace s)
      (is_collapsed-trim_start is_whitespace s h)

pub non_empty-some : (s t : String) → non_empty s ≡ some t → (s ≡ t) × (is_nil t ≡ false)
non_empty-some String.[] t h = cc
non_empty-some (String.◌∷◌ c s) t h = let same : String.◌∷◌ c s ≡ t = cc in (same, rw (sym same))

-- A text that is trimmed and collapsed, and not empty.
trim-IsClean :
    (u t : String) → is_collapsed false u ≡ true → non_empty (trim u) ≡ some t → IsClean t
trim-IsClean u t h e =
    let (same, kept) = non_empty-some (trim u) t e in
    record {
      filled = kept;
      trimmed = rw (sym same, trim_idem u);
      collapsed = rw (sym same, is_collapsed-trim u h);
    }

-- Whatever the JSON value is, a text that `text` returns is not empty, has no white space at either
-- end, no tab, and no two spaces in a row.
pub text-IsClean : (value : Value) (t : String) → text value ≡ some t → IsClean t
unfolding text tidy
text-IsClean value t h =
    let (s, _, tidied) = bind-some (as_str value) tidy t h in
    trim-IsClean (collapse false false (crlf s)) t (collapse-is_collapsed false false (crlf s))
      tidied
