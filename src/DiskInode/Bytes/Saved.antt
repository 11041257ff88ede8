-- ===== src/DiskInode/Bytes/Saved.antt =====
-- A disk inode that is written into a block is read back.
use mathlib.Core.Path.{subst}
use sbfs.Prelude.{
  sym, ap, ◌==◌, if◌then◌else◌, ℕ, zero, suc, ◌+◌, ◌*◌, ◌^◌, ◌≤◌, ◌<◌, ◌≡◌, refl, ◌∙◌, ◌⊎◌, inl,
  inr, arith, List, [], ◌∷◌,
}
use sbfs.Block.{Block, put_le, get_le, get_le-put_le_self, get_le-put_le_ne}
use sbfs.Block.Fields.{Field, put_fields, put_fields-Reads, get_le-put_fields}
use sbfs.DiskInode.{DiskInode, DiskInodeType, file, directory, direct_count}
use sbfs.DiskInode.Bytes.{kind_id, put_words, put_inode, get_inode}

-- The members have their types' widths.
pub record IsStorable (d : DiskInode) : Type 0 where
  pub size : d.size < 2 ^ 32
  pub access_time : d.access_time < 2 ^ 32
  pub change_time : d.change_time < 2 ^ 32
  pub modify_time : d.modify_time < 2 ^ 32
  pub uid : d.uid < 2 ^ 16
  pub gid : d.gid < 2 ^ 16
  pub link_cnt : d.link_cnt < 2 ^ 16
  pub mode : d.mode < 2 ^ 16
  pub direct : (i : ℕ) → i < direct_count → d.direct i < 2 ^ 32
  pub indirect1 : d.indirect1 < 2 ^ 32
  pub indirect2 : d.indirect2 < 2 ^ 32

-- The same members; `direct` at the indices of the array.
pub record IsSame (d e : DiskInode) : Type 0 where
  pub size : d.size ≡ e.size
  pub access_time : d.access_time ≡ e.access_time
  pub change_time : d.change_time ≡ e.change_time
  pub modify_time : d.modify_time ≡ e.modify_time
  pub uid : d.uid ≡ e.uid
  pub gid : d.gid ≡ e.gid
  pub link_cnt : d.link_cnt ≡ e.link_cnt
  pub mode : d.mode ≡ e.mode
  pub direct : (i : ℕ) → i < direct_count → d.direct i ≡ e.direct i
  pub indirect1 : d.indirect1 ≡ e.indirect1
  pub indirect2 : d.indirect2 ≡ e.indirect2
  pub kind : d.kind ≡ e.kind

-- Elsewhere the array changes nothing.
get_le-put_words_ne :
    (n : ℕ) (a : ℕ → ℕ) (b : Block) (o m p : ℕ)
    → (p + m ≤ o) ⊎ (o + 4 * n ≤ p)
    → get_le m (put_words n a b o) p ≡ get_le m b p
unfolding put_words
get_le-put_words_ne zero a b o m p h = refl
get_le-put_words_ne (suc n) a b o m p (inl h) =
    get_le-put_words_ne n (λ i. a (i + 1)) (put_le 4 b o (a 0)) (o + 4) m p (inl (omega arith))
    ∙ get_le-put_le_ne 4 m b o (a 0) p (inl (omega arith))
get_le-put_words_ne (suc n) a b o m p (inr h) =
    get_le-put_words_ne n (λ i. a (i + 1)) (put_le 4 b o (a 0)) (o + 4) m p (inr (omega arith))
    ∙ get_le-put_le_ne 4 m b o (a 0) p (inr (omega arith))

get_le-put_words :
    (n : ℕ) (a : ℕ → ℕ) (b : Block) (o i p : ℕ)
    → i < n
    → p ≡ o + 4 * i
    → a i < 2 ^ 32
    → get_le 4 (put_words n a b o) p ≡ a i
unfolding put_words
get_le-put_words zero a b o i p h e k = absurd (omega arith)
get_le-put_words (suc n) a b o zero p h e k =
    let at : p ≡ o = omega arith in
    get_le-put_words_ne n (λ i. a (i + 1)) (put_le 4 b o (a 0)) (o + 4) 4 p (inl (omega arith))
    ∙ ap (get_le 4 (put_le 4 b o (a 0))) at
    ∙ get_le-put_le_self 4 b o (a 0) k
get_le-put_words (suc n) a b o (suc i) p h e k =
    let next : i + 1 ≡ suc i = omega arith in
    get_le-put_words n (λ i. a (i + 1)) (put_le 4 b o (a 0)) (o + 4) i p (omega arith) (omega arith)
      (subst (λ j. a j < 2 ^ 32) (sym next) k)
    ∙ ap a next

kind_lt : (k : DiskInodeType) → kind_id k < 2
kind_lt file = omega arith
kind_lt directory = omega arith

kind_read : (n : ℕ) (k : DiskInodeType) → n ≡ kind_id k → (if n == 0 then file else directory) ≡ k
kind_read n file h = rw h refl
kind_read n directory h = rw h refl

abbrev pub low : DiskInode → ℕ → List Field
low d o =
    (4, o, d.size)
    ∷ (4, o + 4, d.access_time)
    ∷ (4, o + 8, d.change_time)
    ∷ (4, o + 12, d.modify_time)
    ∷ (2, o + 16, d.uid)
    ∷ (2, o + 18, d.gid)
    ∷ (2, o + 20, d.link_cnt)
    ∷ (2, o + 22, d.mode)
    ∷ []

abbrev pub high : DiskInode → ℕ → List Field
high d o = (4, o + 116, d.indirect1) ∷ (4, o + 120, d.indirect2) ∷ (4, o + 124, kind_id d.kind) ∷ []

-- A disk inode whose members have the widths of their types, written at any offset of a block, is
-- read back from there with the same members.
pub get_inode-put_inode :
    (b : Block) (o : ℕ) (d : DiskInode) → IsStorable d → IsSame (get_inode (put_inode b o d) o) d
unfolding put_inode get_inode
get_inode-put_inode b o d h =
    let b1 = put_fields (low d o) b in
    let b2 = put_words direct_count d.direct b1 (o + 24) in
    let (e0, (e1, (e2, (e3, (e4, (e5, (e6, (e7, _)))))))) =
      put_fields-Reads (low d o) b o (ground arith) (
        h.size,
        (
          h.access_time,
          (h.change_time, (h.modify_time, (h.uid, (h.gid, (h.link_cnt, (h.mode, tt)))))),
        ),
      ) in
    let (f0, (f1, (f2, _))) =
      put_fields-Reads (high d o) b2 (o + 116) (ground arith)
        (h.indirect1, (h.indirect2, (omega (arith, kind_lt d.kind), tt))) in
    let far : (m p : ℕ) → p + m ≤ o + 116 → get_le m (put_fields (high d o) b2) p ≡ get_le m b2 p =
      λ m p l. get_le-put_fields (high d o) b2 (o + 116) m p l (ground arith) in
    let near : (m p : ℕ) → p + m ≤ o + 24 → get_le m (put_fields (high d o) b2) p ≡ get_le m b1 p =
      λ m p l.
        far m p (omega arith) ∙ get_le-put_words_ne direct_count d.direct b1 (o + 24) m p (inl l) in
    record {
      size = near 4 o (omega arith) ∙ e0;
      access_time = near 4 (o + 4) (omega arith) ∙ e1;
      change_time = near 4 (o + 8) (omega arith) ∙ e2;
      modify_time = near 4 (o + 12) (omega arith) ∙ e3;
      uid = near 2 (o + 16) (omega arith) ∙ e4;
      gid = near 2 (o + 18) (omega arith) ∙ e5;
      link_cnt = near 2 (o + 20) (omega arith) ∙ e6;
      mode = near 2 (o + 22) (omega arith) ∙ e7;
      direct = λ i l.
          far 4 (o + 24 + 4 * i) (omega arith)
          ∙ get_le-put_words direct_count d.direct b1 (o + 24) i (o + 24 + 4 * i) l refl
              (h.direct i l);
      indirect1 = f0;
      indirect2 = f1;
      kind = kind_read (get_le 4 (put_fields (high d o) b2) (o + 124)) d.kind f2;
    }
