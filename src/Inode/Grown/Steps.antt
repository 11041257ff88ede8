-- ===== src/Inode/Grown/Steps.antt =====
-- The steps of `Inode::write_data` past the end of a file, and the inode that it writes.

use sbfs.Prelude.{
  ℕ, ◌+◌, ◌*◌, ◌%◌, ◌^◌, ◌≤◌, ◌<◌, ◌≡◌, refl, ◌∙◌, ap, true, false, Bool, ltb, lt→ltb,
  if◌then◌else◌, inl, Option, none, some, M, pure, ◌>>=◌, ◌>>◌, and_then, arith,
}
use sbfs.Block.{Block, block_size}
use sbfs.Store.{BlockStore}
use sbfs.Position.{Position}
use sbfs.Layout.{Fs}
use sbfs.DiskInode.{DiskInode, direct_count, update_meta}
use sbfs.DiskInode.Bytes.{read_inode, write_inode}
use sbfs.DiskInode.Bytes.Saved.{IsStorable, IsSame}
use sbfs.DiskInode.Lookup.{Located}
use sbfs.DiskInode.Resize
use sbfs.DiskInode.Data
use sbfs.DiskInode.Data.Write.{IsApart}
use sbfs.Inode.{write_data, try_inode, on_inode}
use sbfs.Inode.Grown.{longer, with_stale}

-- The steps of a write past the end, one after the other.
pub write_data-runs :
    (bs : BlockStore) (fs : Fs) (now : ℕ) (pos : Position) (offset len l : ℕ) (buf : Block)
    (cur cur' cur'' : DiskInode) (s0 s1 s2 s3 s4 : bs.State)
    → read_inode bs pos s0 ≡ (some cur, s1)
    → ltb cur.size ((offset + len) % 2 ^ 32) ≡ true
    → Resize.resize bs fs.data_bitmap now none
        ((offset + len) % 2 ^ 32)
        (record { node = cur; dev = s1 })
      ≡ (some tt, record { node = cur'; dev = s2 })
    → Data.write_data bs now offset buf len (record { node = cur'; dev = s2 })
      ≡ (some l, record { node = cur''; dev = s3 })
    → write_inode bs pos cur'' s3 ≡ (some tt, s4)
    → write_data bs fs now pos offset buf len s0 ≡ (some l, s4)
unfolding write_data
write_data-runs bs fs now pos offset len l buf cur cur' cur'' s0 s1 s2 s3 s4 e0 c e1 e2 e3 =
    let grow : Bool → M bs.State DiskInode = λ c.
      if c
      then try_inode cur (Resize.resize bs fs.data_bitmap now none ((offset + len) % 2 ^ 32))
      else pure cur in
    let rest : DiskInode → M bs.State ℕ = λ d.
      on_inode d (Data.write_data bs now offset buf len) >>= λ (l, d').
      write_inode bs pos d' >> pure l in
    let grows : grow true s1 ≡ (some cur', s2) = ap (λ r. (some r.1.node, r.1.dev)) e1 in
    rw e0
      (ap (λ c. and_then (grow c s1) rest) c ∙ ap (λ r. and_then r rest) grows ∙ rw (e2, e3) refl)

pub longer-IsStorable :
    (now size : ℕ) (direct : ℕ → ℕ) (a d : DiskInode)
    → IsSame a d
    → IsStorable d
    → size < 2 ^ 32
    → ((i : ℕ) → i < direct_count → direct i < 2 ^ 32)
    → IsStorable (longer now size direct a)
unfolding longer update_meta
longer-IsStorable now size direct a d s k small ids = record {
  size = small;
  access_time = omega arith;
  change_time = omega arith;
  modify_time = omega arith;
  uid = omega (arith, s.uid, k.uid);
  gid = omega (arith, s.gid, k.gid);
  link_cnt = omega (arith, s.link_cnt, k.link_cnt);
  mode = omega (arith, s.mode, k.mode);
  direct = ids;
  indirect1 = omega (arith, s.indirect1, k.indirect1);
  indirect2 = omega (arith, s.indirect2, k.indirect2);
}

pub longer-IsSame :
    (now size : ℕ) (direct : ℕ → ℕ) (c a d : DiskInode)
    → IsSame c (longer now size direct a)
    → IsSame a d
    → IsSame c (longer now size direct d)
unfolding longer update_meta
longer-IsSame now size direct c a d p s = record {
  size = p.size;
  access_time = p.access_time;
  change_time = p.change_time;
  modify_time = p.modify_time;
  uid = p.uid ∙ s.uid;
  gid = p.gid ∙ s.gid;
  link_cnt = p.link_cnt ∙ s.link_cnt;
  mode = p.mode ∙ s.mode;
  direct = p.direct;
  indirect1 = p.indirect1 ∙ s.indirect1;
  indirect2 = p.indirect2 ∙ s.indirect2;
  kind = p.kind ∙ s.kind;
}

pub longer_lem :
    (now size : ℕ) (direct : ℕ → ℕ) (d : DiskInode)
    → longer now size direct d
      ≡ update_meta now true true false
          (record (update_meta now true true true d) { size = size; direct = direct })
unfolding longer
longer_lem now size direct d = refl

pub own-IsApart :
    (bs : BlockStore) (a : DiskInode) (n : ℕ) (ids : ℕ → ℕ) (f : ℕ → Option Block)
    → n ≤ direct_count
    → ((i : ℕ) → i < n → a.direct i ≡ ids i)
    → ((i j : ℕ) → i < n → j < n → ids i ≡ ids j → i ≡ j)
    → IsApart bs a n ids f
unfolding Located
own-IsApart bs a n ids f few direct distinct = record {
  found = λ h same i l. inl (omega arith, direct i l);
  distinct = distinct;
}

pub with_stale-old :
    (bs : BlockStore) (fs : Fs) (now : ℕ) (pos : Position) (n : ℕ) (ids : ℕ → ℕ) (bytes : ℕ → ℕ)
    (blocks : ℕ → Block) (x : ℕ)
    → x < n * block_size
    → with_stale bs fs now pos n ids bytes blocks x ≡ bytes x
unfolding with_stale
with_stale-old bs fs now pos n ids bytes blocks x l = rw (lt→ltb x (n * block_size) l) refl

pub longer-fields :
    (now size : ℕ) (direct : ℕ → ℕ) (d : DiskInode)
    → ((longer now size direct d).size ≡ size) × ((longer now size direct d).direct ≡ direct)
unfolding longer update_meta
longer-fields now size direct d = (refl, refl)
