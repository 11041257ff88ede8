-- ===== src/Path.antt =====
-- The strings of `PathResolver`, src/path_resolver.cpp: how a path is cut at its slashes, and which
-- keys of the path cache a prefix removes. A string is the list of its characters.
pub mod Split
pub mod Prefix
use sbfs.Prelude.{
  ℕ, Bool, true, false, ◌==◌, ◌&&◌, if◌then◌else◌, Option, none, some, List, [], ◌∷◌, ◌++◌, take,
  length,
}

abbrev pub Str : Type 0
Str = List ℕ

abbrev pub slash : ℕ
slash = 47

unfoldable pub remove_end_slash : Str → Str
remove_end_slash [] = []
remove_end_slash (c ∷ []) = if c == slash then [] else c ∷ []
remove_end_slash (c ∷ d ∷ s) = c ∷ remove_end_slash (d ∷ s)

-- `substr(1)` of a string that is not empty. Callers see to that: the one in `resolve` has a path
-- that begins with a slash and is longer than it, of which the end slash is cut at most, and
-- `removePrefix` tests the string.
abbrev pub tail : Str → Str
tail [] = []
tail (c ∷ s) = s

-- The loop of `split` from a character on: `seen` is the string before it, `cur` its part from
-- `start` on.
unfoldable pub split_from : (delim : ℕ) → (reserve_prev : Bool) → (seen cur rest : Str) → List Str
split_from delim reserve_prev seen cur [] = (if reserve_prev then seen else cur) ∷ []
split_from delim reserve_prev seen cur (c ∷ rest) =
    let start = if c == delim then [] else cur ++ (c ∷ []) in
    let more = split_from delim reserve_prev (seen ++ (c ∷ [])) start rest in
    if c == delim then (if reserve_prev then seen else cur) ∷ more else more

unfoldable pub split : Str → (delim : ℕ) → (reserve_prev : Bool) → List Str
unfolding split_from
split s delim reserve_prev = split_from delim reserve_prev [] [] s

same_string : Str → Str → Bool
same_string [] [] = true
same_string [] (d ∷ t) = false
same_string (c ∷ s) [] = false
same_string (c ∷ s) (d ∷ t) = (c == d) && same_string s t

-- `key.substr(0, prefix.size()) == prefix`.
pub has_prefix : Str → Str → Bool
unfolding same_string
has_prefix prefix key = same_string (take (length prefix) key) prefix

-- The loop of `removePrefix` over the entries from `lower_bound(prefix)` on. Those before it are
-- smaller than the prefix, so they do not have it.
pub erase_prefix : {A : Type 0} → Str → List (Str × A) → List (Str × A)
unfolding has_prefix
erase_prefix prefix [] = []
erase_prefix prefix ((k, v) ∷ rest) =
    let kept = erase_prefix prefix rest in if has_prefix prefix k then kept else (k, v) ∷ kept

-- `substr(1)`, and `none` where it throws.
abbrev pub after_first : Str → Option Str
after_first [] = none
after_first (c ∷ s) = some s

-- `start` of `removePrefix`.
unfoldable pub start_of : Str → Option Str
unfolding remove_end_slash
start_of prefix = after_first (remove_end_slash prefix)

pub remove_prefix : {A : Type 0} → Str → List (Str × A) → Option (List (Str × A))
unfolding erase_prefix start_of
remove_prefix prefix cache = elim (start_of prefix) [
  | none ↦ none
  | some start ↦ some (erase_prefix start cache)
]
