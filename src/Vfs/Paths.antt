-- ===== src/Vfs/Paths.antt =====
-- `splitFromLastSlash` of src/vfs.cpp.
use sbfs.Prelude.{
  suc, ◌+◌, ◌≡◌, refl, ap, false, ◌==◌, none, some, [], ◌∷◌, ◌++◌, length, take, drop, All, arith,
}
use sbfs.Path.{Str, slash}
use sbfs.Vfs.{rfind, split_from_last_slash}

-- A name of a file has no slash.
abbrev pub IsName : Str → Type 0
IsName = All (λ c. (c == slash) ≡ false)

rfind-IsName : (s : Str) → IsName s → rfind slash s ≡ none
unfolding rfind
rfind-IsName [] h = refl
rfind-IsName (c ∷ s) (e, h) = rw (rfind-IsName s h, e) refl

rfind-last :
    (dir name : Str) → IsName name → rfind slash (dir ++ (slash ∷ name)) ≡ some (length dir)
unfolding rfind
rfind-last [] name h = rw (rfind-IsName name h) refl
rfind-last (c ∷ dir) name h = rw (rfind-last dir name h) (ap some (omega arith))

take-drop_last :
    (dir name : Str)
    → (take (suc (length dir)) (dir ++ (slash ∷ name)) ≡ dir ++ (slash ∷ []))
      × (drop (suc (length dir)) (dir ++ (slash ∷ name)) ≡ name)
take-drop_last [] name = (refl, refl)
take-drop_last (c ∷ dir) name = let (t, d) = take-drop_last dir name in (ap (λ s. c ∷ s) t, d)

-- For a name without a slash, a path that ends in a slash and the name is split after that slash,
-- and the name alone has the empty string as its parent.
pub split_from_last_slash-append :
    (dir name : Str)
    → IsName name
    → (split_from_last_slash (dir ++ (slash ∷ name)) ≡ (dir ++ (slash ∷ []), name))
      × (split_from_last_slash name ≡ ([], name))
unfolding split_from_last_slash
split_from_last_slash-append dir name h =
    let (t, d) = take-drop_last dir name in
    let one : length dir + 1 ≡ suc (length dir) = omega arith in
    (
      rw (split_from_last_slash, rfind-last dir name h, one, t, d) refl,
      rw (split_from_last_slash, rfind-IsName name h) refl,
    )
