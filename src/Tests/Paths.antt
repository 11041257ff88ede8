-- ===== src/Tests/Paths.antt =====
-- The theorems on paths, at the path `/a/bc/`.
use sbfs.Prelude.{ℕ, ◌≡◌, ◌≢◌, true, false, none, some, List, [], ◌∷◌, ◌++◌}
use sbfs.Path.{Str, slash, split, remove_prefix}
use sbfs.Path.Split.{heads, joined, split-heads, split-joined}
use sbfs.Path.Prefix.{find, ends_in_slash, find-remove_prefix}

-- `a/bc`.
abbrev path : Str
path = 97 ∷ slash ∷ 98 ∷ 99 ∷ []

split-heads_example : split path slash true ≡ heads slash [] (split path slash false)
split-heads_example = split-heads path slash

split-joined_example : joined slash (split path slash false) ≡ path
split-joined_example = split-joined path slash

abbrev cache : List (Str × ℕ)
cache = (97 ∷ [], 1) ∷ (path, 2) ∷ (99 ∷ [], 3) ∷ []

find-remove_prefix_example :
    (after : List (Str × ℕ)) × (remove_prefix (slash ∷ 97 ∷ slash ∷ []) cache ≡ some after)
    × ((t : Str) → find ((97 ∷ []) ++ t) after ≡ none)
    × ((key : Str) → ((t : Str) → key ≢ (97 ∷ []) ++ t) → find key after ≡ find key cache)
find-remove_prefix_example =
    find-remove_prefix slash (97 ∷ []) (slash ∷ 97 ∷ slash ∷ []) cache ends_in_slash
