-- ===== src/Draft/Examples.antt =====
-- Drafts at concrete lists.
use linkex.Shared.{◌≡◌, refl, true, false, none, some, [], ◌∷◌, nat_eq, string_eq}
use linkex.Draft.{merge_lists, fill_missing, names_of}
use linkex.Shared.Int.{pos}

merge_lists_example :
    merge_lists ("a@x.com" ∷ []) ("a@x.com" ∷ "b@x.com" ∷ "b@x.com" ∷ [])
    ≡ "a@x.com" ∷ "b@x.com" ∷ []
unfolding merge_lists
merge_lists_example = refl

names_of_example : names_of ("a" ∷ "b" ∷ "c" ∷ []) (true ∷ false ∷ true ∷ []) ≡ "a" ∷ "c" ∷ []
unfolding names_of
names_of_example = refl

fill_missing_example :
    fill_missing
      (record { followers = some (pos 7); connections = none; distance = none; following = none })
      (record {
        followers = some (pos 99);
        connections = some (pos 3);
        distance = none;
        following = some true;
      })
    ≡ record {
      followers = some (pos 7);
      connections = some (pos 3);
      distance = none;
      following = some true;
    }
unfolding fill_missing
fill_missing_example = refl
