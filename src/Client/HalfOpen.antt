-- ===== src/Client/HalfOpen.antt =====
-- A probe of the circuit breaker that ends without a recorded result.
use linkex.Shared.{ℕ, false, List, [], ◌∷◌, nat_eq, string_eq}
use linkex.Client.{VoyagerCall, Client, World, fetch}

-- Calls one after the other, in the worlds they find.
unfoldable pub fetches : ℕ → List (VoyagerCall × World) → Client → Client
fetches max_retries [] c = c
fetches max_retries ((call, world) ∷ calls) c =
    fetches max_retries calls (fetch max_retries call false world c).0
