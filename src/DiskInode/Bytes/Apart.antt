-- ===== src/DiskInode/Bytes/Apart.antt =====
-- Disk inodes at places of a block that do not overlap.
use sbfs.Prelude.{
  ℕ, zero, suc, ◌+◌, ◌*◌, ◌≤◌, ◌<◌, ◌≡◌, refl, ◌∙◌, ap, ◌==◌, if◌then◌else◌, ◌⊎◌, inl, inr, arith,
  List, [], ◌∷◌, All,
}
use sbfs.Block.{Block, put_le, get_le, get_le_congr, put_le-below, put_le-above}
use sbfs.Block.Fields.{Field, put_fields}
use sbfs.DiskInode.{DiskInode, file, directory, direct_count}
use sbfs.DiskInode.Bytes.{inode_bytes, put_words, put_inode, get_inode}
use sbfs.DiskInode.Bytes.Saved.{IsSame, low, high}

abbrev Outside : ℕ → ℕ → ℕ → Type 0
Outside o e q = (q < o) ⊎ (e ≤ q)

abbrev Within : ℕ → ℕ → Field → Type 0
Within o e (n, p, v) = (o ≤ p) × (p + n ≤ e)

put_le-elsewhere :
    (n : ℕ) (b : Block) (o v e p q : ℕ) → Outside o e q → o ≤ p → p + n ≤ e → put_le n b p v q ≡ b q
put_le-elsewhere n b o v e p q (inl h) l u = put_le-below n b p v q (omega arith)
put_le-elsewhere n b o v e p q (inr h) l u = put_le-above n b p v q (omega arith)

put_fields-elsewhere :
    (ws : List Field) (b : Block) (o e q : ℕ)
    → Outside o e q
    → All (Within o e) ws
    → put_fields ws b q ≡ b q
put_fields-elsewhere [] b o e q h k = refl
put_fields-elsewhere ((n, p, v) ∷ ws) b o e q h ((l, u), ks) =
    put_fields-elsewhere ws (put_le n b p v) o e q h ks ∙ put_le-elsewhere n b o v e p q h l u

put_words-elsewhere :
    (n : ℕ) (a : ℕ → ℕ) (b : Block) (o e p q : ℕ)
    → Outside o e q
    → o ≤ p
    → p + 4 * n ≤ e
    → put_words n a b p q ≡ b q
unfolding put_words
put_words-elsewhere zero a b o e p q h l u = refl
put_words-elsewhere (suc n) a b o e p q h l u =
    put_words-elsewhere n (λ i. a (i + 1)) (put_le 4 b p (a 0)) o e (p + 4) q h (omega arith)
      (omega arith)
    ∙ put_le-elsewhere 4 b o (a 0) e p q h l (omega arith)

put_inode-elsewhere :
    (b : Block) (o : ℕ) (d : DiskInode) (q : ℕ)
    → Outside o (o + inode_bytes) q
    → put_inode b o d q ≡ b q
unfolding put_inode
put_inode-elsewhere b o d q h =
    let b1 = put_fields (low d o) b in
    let b2 = put_words direct_count d.direct b1 (o + 24) in
    put_fields-elsewhere (high d o) b2 o (o + inode_bytes) q h (omega arith)
    ∙ put_words-elsewhere direct_count d.direct b1 o (o + inode_bytes) (o + 24) q h (omega arith)
        (omega arith)
    ∙ put_fields-elsewhere (low d o) b o (o + inode_bytes) q h (omega arith)

-- Writing a disk inode leaves the members of every other that it does not overlap.
pub get_inode-put_inode_ne :
    (b : Block) (o p : ℕ) (d : DiskInode)
    → (p + inode_bytes ≤ o) ⊎ (o + inode_bytes ≤ p)
    → IsSame (get_inode (put_inode b o d) p) (get_inode b p)
unfolding get_inode
get_inode-put_inode_ne b o p d apart = record {
  size = at 4 p (omega arith) (omega arith);
  access_time = word 4 4 (omega arith);
  change_time = word 4 8 (omega arith);
  modify_time = word 4 12 (omega arith);
  uid = word 2 16 (omega arith);
  gid = word 2 18 (omega arith);
  link_cnt = word 2 20 (omega arith);
  mode = word 2 22 (omega arith);
  direct = λ i l. at 4 (p + 24 + 4 * i) (omega arith) (omega arith);
  indirect1 = word 4 116 (omega arith);
  indirect2 = word 4 120 (omega arith);
  kind = ap (λ n. if n == 0 then file else directory) (word 4 124 (omega arith));
}
  where
    outside :
        (q : ℕ)
        → p ≤ q
        → q < p + inode_bytes
        → (p + inode_bytes ≤ o) ⊎ (o + inode_bytes ≤ p)
        → Outside o (o + inode_bytes) q
    outside q l u (inl h) = inl (omega arith)
    outside q l u (inr h) = inr (omega arith)

    at : (m x : ℕ) → p ≤ x → x + m ≤ p + inode_bytes → get_le m (put_inode b o d) x ≡ get_le m b x
    at m x l u =
        get_le_congr m (put_inode b o d) b x
          (λ q low up. put_inode-elsewhere b o d q (outside q (omega arith) (omega arith) apart))

    word : (m x : ℕ) → x + m ≤ inode_bytes → get_le m (put_inode b o d) (p + x) ≡ get_le m b (p + x)
    word m x u = at m (p + x) (omega arith) (omega arith)

pub IsSame-trans : {a b c : DiskInode} → IsSame a b → IsSame b c → IsSame a c
IsSame-trans p q = record {
  size = p.size ∙ q.size;
  access_time = p.access_time ∙ q.access_time;
  change_time = p.change_time ∙ q.change_time;
  modify_time = p.modify_time ∙ q.modify_time;
  uid = p.uid ∙ q.uid;
  gid = p.gid ∙ q.gid;
  link_cnt = p.link_cnt ∙ q.link_cnt;
  mode = p.mode ∙ q.mode;
  direct = λ i l. p.direct i l ∙ q.direct i l;
  indirect1 = p.indirect1 ∙ q.indirect1;
  indirect2 = p.indirect2 ∙ q.indirect2;
  kind = p.kind ∙ q.kind;
}
