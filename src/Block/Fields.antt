-- ===== src/Block/Fields.antt =====
-- Words written one after the other in a block, as the members of a struct.
use sbfs.Prelude.{ℕ, ◌+◌, ◌^◌, ◌≤◌, ◌<◌, ◌≡◌, refl, ◌∙◌, inl, arith, List, [], ◌∷◌, All}
use sbfs.Block.{Block, get_le, put_le, get_le-put_le_self, get_le-put_le_ne}

-- The size of a word, its offset and its value.
abbrev pub Field : Type 0
Field = ℕ × ℕ × ℕ

abbrev pub put_fields : List Field → Block → Block
put_fields [] b = b
put_fields ((n, p, v) ∷ ws) b = put_fields ws (put_le n b p v)

-- The words follow one another from an offset on.
abbrev pub Packed : ℕ → List Field → Type 0
Packed o [] = Unit {0}
Packed o ((n, p, v) ∷ ws) = (o ≤ p) × Packed (p + n) ws

abbrev pub Fits : Field → Type 0
Fits (n, p, v) = v < 256 ^ n

abbrev pub Reads : Block → Field → Type 0
Reads b (n, p, v) = get_le n b p ≡ v

pub get_le-put_fields :
    (ws : List Field) (b : Block) (o m p : ℕ)
    → p + m ≤ o
    → Packed o ws
    → get_le m (put_fields ws b) p ≡ get_le m b p
get_le-put_fields [] b o m p h k = refl
get_le-put_fields ((n, q, v) ∷ ws) b o m p h (k, ks) =
    get_le-put_fields ws (put_le n b q v) (q + n) m p (omega arith) ks
    ∙ get_le-put_le_ne n m b q v p (inl (omega arith))

-- Each is read back.
pub put_fields-Reads :
    (ws : List Field) (b : Block) (o : ℕ)
    → Packed o ws
    → All Fits ws
    → All (Reads (put_fields ws b)) ws
put_fields-Reads [] b o k f = tt
put_fields-Reads ((n, p, v) ∷ ws) b o (k, ks) (f, fs) = (
  get_le-put_fields ws (put_le n b p v) (p + n) n p (omega arith) ks ∙ get_le-put_le_self n b p v f,
  put_fields-Reads ws (put_le n b p v) (p + n) ks fs,
)
