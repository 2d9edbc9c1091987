-- ===== src/Session/Merge.antt =====
-- Merging the cookies that LinkedIn issued, seen at one name.
use linkex.Shared.{
  String, ◌≡◌, refl, ap, ◌∙◌, Option, none, some, [], ◌∷◌, arith, ◌==◌, nat_eq, string_eq,
  if◌then◌else◌, get, remove, get-insert, get-remove,
}
use linkex.Shared.Text.{is_nil}
use linkex.Session.{Cookies, li_at_name, is_tombstone, merge_cookie, merge_all}

-- One cookie issued for the name itself: an empty value is passed over, a tombstone deletes the
-- cookie, but the auth cookie keeps the tombstone, and any other value replaces it.
unfoldable pub reissued : String → String → Option String → Option String
reissued name value old =
    if is_nil value
    then old
    else if is_tombstone value
    then (if name == li_at_name then some value else none)
    else some value

unfoldable pub view : String → Cookies → Option String → Option String
view k [] old = old
view k ((name, value) ∷ fresh) old =
    view k fresh (if name == k then reissued name value old else old)

get-merge_cookie :
    (k name value : String) (cookies : Cookies)
    → get k (merge_cookie name value cookies)
      ≡ (if name == k then reissued name value (get k cookies) else get k cookies)
unfolding merge_cookie reissued
get-merge_cookie k name value cookies = ground (
  arith,
  get-insert name k value cookies,
  get-insert li_at_name k value (remove name cookies),
  get-remove name k cookies,
  string_eq.same_iff name k,
  string_eq.same_iff li_at_name k,
  string_eq.same_iff name li_at_name,
)

-- After a merge a name has the value that the issued cookies of that name lead to, in their order:
-- no cookie of another name bears on it.
pub get-merge_all :
    (k : String) (fresh cookies : Cookies)
    → get k (merge_all fresh cookies) ≡ view k fresh (get k cookies)
unfolding merge_all view
get-merge_all k [] cookies = refl
get-merge_all k ((name, value) ∷ fresh) cookies =
    get-merge_all k fresh (merge_cookie name value cookies)
    ∙ ap (view k fresh) (get-merge_cookie k name value cookies)
