-- ===== src/Vfs/Attributes/Updates.antt =====
-- What `sb_rmw_diskinode` leaves on the device, and the attributes that are read after a change.
use sbfs.Prelude.{
  ℕ, ◌%◌, ◌^◌, ◌<◌, ◌≡◌, refl, ◌∙◌, ap, true, ◌==◌, ==_refl, if◌then◌else◌, some, arith,
}
use sbfs.Block.{Block, block_size}
use sbfs.Store.{BlockStore}
use sbfs.Position.{Position, is_valid}
use sbfs.Path.{Str}
use sbfs.Layout.{Fs}
use sbfs.DiskInode.{DiskInode, total_blocks}
use sbfs.DiskInode.Bytes.{get_inode, put_inode}
use sbfs.DiskInode.Bytes.Saved.{IsStorable, IsSame, get_inode-put_inode}
use sbfs.DiskInode.Bytes.Stored.{read_inode-Leaves, write_inode-Leaves}
use sbfs.Fd.{get_fd}
use sbfs.Vfs.{Vfs, Reply, done, inode_of, rmw_diskinode}
use sbfs.Vfs.Attributes.{stat_of, getattr, chmod, chown}

module _ (bs : BlockStore) (fs : Fs) (now : ℕ) (path : Str) (fh : ℕ) (p : Position)
    (v : Vfs bs.State) (b : Block) (opened : get_fd fh v.fds ≡ some p) (valid : is_valid p ≡ true)
    (good : bs.Good v.dev) (there : bs.contents v.dev p.block_id ≡ some b) where
  open bs use {State, Good, contents}

  -- The handler answers, with a new disk inode in its block and the rest as it was.
  pub record Updates {A : Type 0} (a : A) (d : DiskInode) (r : Reply A × Vfs State) : Type 0 where
    pub after : Vfs State
    pub runs : r ≡ (done a, after)
    pub still_good : Good after.dev
    pub holds :
        (j : ℕ)
        → contents after.dev j
          ≡ (if p.block_id == j then some (put_inode b p.block_offset d) else contents v.dev j)
    pub fds : after.fds ≡ v.fds

  inode_of-handle : inode_of bs fs now path (some fh) v ≡ (done p, v)
  unfolding inode_of
  inode_of-handle = rw (opened, valid) refl

  rmw-Updates :
      {A : Type 0} (func : DiskInode → Reply (A × DiskInode)) (a : A) (d : DiskInode)
      → func (get_inode b p.block_offset) ≡ done (a, d)
      → Updates a d (rmw_diskinode bs fs now path (some fh) func v)
  unfolding rmw_diskinode
  rmw-Updates func a d e =
      let l = read_inode-Leaves bs p v.dev b good there in
      let w = write_inode-Leaves bs p l.after b l.good (l.holds p.block_id ∙ there) d in
      record {
        after = record v { dev = w.after };
        runs = rw (inode_of-handle, l.runs, e, w.runs) refl;
        still_good = w.good;
        holds = λ j. w.holds j ∙ rw (l.holds j) refl;
        fds = refl;
      }

stat_of-same : (d e : DiskInode) → IsSame d e → stat_of d ≡ stat_of e
unfolding stat_of
stat_of-same d e s = λ i. record {
  st_mode = s.mode i;
  st_atime = s.access_time i;
  st_mtime = s.modify_time i;
  st_ctime = s.change_time i;
  st_size = s.size i;
  st_nlink = s.link_cnt i;
  st_uid = s.uid i;
  st_gid = s.gid i;
  st_blocks = total_blocks (s.size i);
  st_blksize = block_size;
}

-- The second call reads what the first one stored.
getattr-after :
    (bs : BlockStore) (fs : Fs) (now : ℕ) (path : Str) (fh : ℕ) (p : Position) (v : Vfs bs.State)
    (b : Block) (opened : get_fd fh v.fds ≡ some p) (valid : is_valid p ≡ true)
    (good : bs.Good v.dev) (there : bs.contents v.dev p.block_id ≡ some b) (d : DiskInode)
    (r : Reply (Unit {0}) × Vfs bs.State)
    → IsStorable d
    → Updates bs fs now path fh p v b opened valid good there tt d r
    → (after : Vfs bs.State) × (r ≡ (done tt, after))
      × ((getattr bs fs now path (some fh) after).0 ≡ done (stat_of d))
unfolding getattr
getattr-after bs fs now path fh p v b opened valid good there d r k u =
    let b' = put_inode b p.block_offset d in
    let got =
      rmw-Updates bs fs now path fh p u.after b' (ap (get_fd fh) u.fds ∙ opened) valid u.still_good
        (u.holds p.block_id ∙ rw (==_refl p.block_id) refl) (λ d. done (stat_of d, d))
        (stat_of (get_inode b' p.block_offset)) (get_inode b' p.block_offset) refl in
    (
      u.after,
      u.runs,
      ap (λ r. r.0) got.runs
          ∙ ap done (
              stat_of-same (get_inode b' p.block_offset) d
                (get_inode-put_inode b p.block_offset d k)),
    )

owned-IsStorable :
    (d : DiskInode) (uid gid mode : ℕ)
    → uid < 2 ^ 16
    → gid < 2 ^ 16
    → mode < 2 ^ 16
    → IsStorable d
    → IsStorable (record d { uid = uid; gid = gid; mode = mode })
owned-IsStorable d uid gid mode h k l s = record {
  size = s.size;
  access_time = s.access_time;
  change_time = s.change_time;
  modify_time = s.modify_time;
  uid = h;
  gid = k;
  link_cnt = s.link_cnt;
  mode = l;
  direct = s.direct;
  indirect1 = s.indirect1;
  indirect2 = s.indirect2;
}

module _ (bs : BlockStore) (fs : Fs) (now : ℕ) (path : Str) (fh : ℕ) (p : Position)
    (v : Vfs bs.State) (b : Block) (opened : get_fd fh v.fds ≡ some p) (valid : is_valid p ≡ true)
    (good : bs.Good v.dev) (there : bs.contents v.dev p.block_id ≡ some b)
    (storable : IsStorable (get_inode b p.block_offset)) where
  -- With a handle of a valid inode whose block a good device has, and whose members have the
  -- widths of their types, `chmod` succeeds, and `getattr` by the handle then returns the
  -- attributes from before with the low 16 bits of the new mode.
  pub getattr-chmod :
      (mode : ℕ)
      → (after : Vfs bs.State) × (chmod bs fs now path mode (some fh) v ≡ (done tt, after))
        × ((getattr bs fs now path (some fh) after).0
            ≡ done (record (stat_of (get_inode b p.block_offset)) { st_mode = mode % 2 ^ 16 }))
  unfolding chmod stat_of
  getattr-chmod mode =
      let old = get_inode b p.block_offset in
      let d : DiskInode = record old { mode = mode % 2 ^ 16 } in
      getattr-after bs fs now path fh p v b opened valid good there d
        (chmod bs fs now path mode (some fh) v)
        (owned-IsStorable old old.uid old.gid (mode % 2 ^ 16) storable.uid storable.gid
          (omega arith) storable)
        (rmw-Updates bs fs now path fh p v b opened valid good there
          (λ d. done (tt, record d { mode = mode % 2 ^ 16 })) tt d refl)

  -- Under the same conditions, `chown` succeeds, and `getattr` then returns the attributes from
  -- before with the low 16 bits of the new owner and group.
  pub getattr-chown :
      (uid gid : ℕ)
      → (after : Vfs bs.State) × (chown bs fs now path uid gid (some fh) v ≡ (done tt, after))
        × ((getattr bs fs now path (some fh) after).0
            ≡ done (record (stat_of (get_inode b p.block_offset)) {
              st_uid = uid % 2 ^ 16;
              st_gid = gid % 2 ^ 16;
            }))
  unfolding chown stat_of
  getattr-chown uid gid =
      let old = get_inode b p.block_offset in
      let d : DiskInode = record old { uid = uid % 2 ^ 16; gid = gid % 2 ^ 16 } in
      getattr-after bs fs now path fh p v b opened valid good there d
        (chown bs fs now path uid gid (some fh) v)
        (owned-IsStorable old (uid % 2 ^ 16) (gid % 2 ^ 16) old.mode (omega arith) (omega arith)
          storable.mode storable)
        (rmw-Updates bs fs now path fh p v b opened valid good there
          (λ d. done (tt, record d { uid = uid % 2 ^ 16; gid = gid % 2 ^ 16 })) tt d refl)
