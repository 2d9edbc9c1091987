-- ===== src/Access/Examples.antt =====
-- Keys and identities of concrete requests.
use linkex.Shared.{
  ◌≡◌, refl, ◌↔◌, true, false, none, some, [], ◌∷◌, arith, nat_eq, string_eq, is_empty,
}
use linkex.Shared.Text.{trim, split_once}
use linkex.Access.{Key, ct_match, matched, check_key, Origin, identity_of}
use linkex.Access.Keys.{Member, check_key_iff}

-- "ab" and "a" in bytes
abbrev ab : Key
ab = b'a' ∷ b'b' ∷ []

abbrev just_a : Key
just_a = b'a' ∷ []

padded_example : (ct_match just_a ab ≡ false) × (ct_match just_a (b'a' ∷ 0 ∷ []) ≡ true)
unfolding ct_match linkex.Access.ct_eq linkex.Access.resize
padded_example = (refl, refl)

identity_example :
    (identity_of none none
        (record { peer = "10.0.0.1:5000"; trusted = true; forwarded = some " 1.2.3.4, 10.0.0.2" })
      ≡ "1.2.3.4")
    × (identity_of none none
          (record { peer = "10.0.0.1:5000"; trusted = false; forwarded = some "1.2.3.4" })
        ≡ "10.0.0.1:5000")
unfolding identity_of trim split_once
identity_example = (refl, refl)

check_key_iff_example :
    (check_key true (just_a ∷ ab ∷ []) ab ≡ none)
    ↔ ((is_empty ab ≡ false) × Member ab (just_a ∷ ab ∷ []))
check_key_iff_example =
    check_key_iff ab (just_a ∷ ab ∷ []) (omega arith, (omega arith, record {}))
      ((omega arith, record {}), ((omega arith, (omega arith, record {})), record {}))
