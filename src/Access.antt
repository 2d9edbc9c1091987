-- ===== src/Access.antt =====
-- src/api/middleware.rs, `api_key_and_rate_limit` up to the rate limit: the check of an API key
-- against the configured ones, and the identity that is limited. A key is the list of its bytes.
pub mod Keys
mod Examples
use linkex.Shared.{
  ℕ, zero, suc, max, String, Bool, true, false, not, ◌&&◌, ◌||◌, Option, none, some, List, [], ◌∷◌,
  arith, ◌==◌, nat_eq, string_eq, if◌then◌else◌, length, is_empty,
}
use linkex.Shared.Text.{◌&◌, is_nil, trim, split_once}
use linkex.Error.{AppError, Result, ok, err, api_key_missing, api_key_invalid}

abbrev pub Key : Type 0
Key = List ℕ

-- `Vec::resize` with zeros
unfoldable pub resize : ℕ → Key → Key
resize zero key = []
resize (suc n) [] = 0 ∷ resize n []
resize (suc n) (byte ∷ key) = byte ∷ resize n key

-- `ct_eq` of two slices of one length
unfoldable pub ct_eq : Key → Key → Bool
ct_eq [] [] = true
ct_eq [] (_ ∷ _) = false
ct_eq (_ ∷ _) [] = false
ct_eq (x ∷ s) (y ∷ c) = let rest = ct_eq s c in x == y && rest

unfoldable pub ct_match : Key → Key → Bool
ct_match supplied candidate =
    let most = max (length supplied) (length candidate) in
    ct_eq (resize most supplied) (resize most candidate)

-- `matched |= …` over all the candidates
unfoldable pub matched : Key → List Key → Bool
matched supplied [] = false
matched supplied (candidate ∷ keys) =
    let rest = matched supplied keys in ct_match supplied candidate || rest

-- The check of the key where no billing is configured: what it lets through, or the error.
unfoldable pub check_key : Bool → List Key → Key → Option AppError
check_key required keys supplied =
    if not required
    then none
    else if is_empty supplied
    then some api_key_missing
    else if matched supplied keys
    then none
    else some api_key_invalid

-- What the rate limit is for: the billing account, else the key, else the peer's address with its
-- port, or what a trusted proxy says of the peer.
pub record Origin : Type 0 where
  pub peer : String
  pub trusted : Bool
  pub forwarded : Option String

first_part : Option (String × String) → String → String
first_part none value = value
first_part (some (first, _)) value = first

abbrev forwarded_or : String → Option String → String
forwarded_or peer none = peer
forwarded_or peer (some value) =
    let first = trim (first_part (split_once b',' value) value) in
    if is_nil first then peer else first

unfoldable pub identity_of : Option String → Option String → Origin → String
unfolding first_part
identity_of (some redis_key) supplied o = redis_key
identity_of none (some key) o = key
identity_of none none o = if o.trusted then forwarded_or o.peer o.forwarded else o.peer
