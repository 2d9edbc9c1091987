-- ===== src/Parser/Assembler/Profiles.antt =====
-- The published profile: what it says of its own completeness.
use linkex.Shared.{Bool, true, List, [], ◌∷◌, ◌&&◌}

-- all of a list of flags
abbrev pub all_true : List Bool → Bool
all_true [] = true
all_true (b ∷ bs) = b && all_true bs
