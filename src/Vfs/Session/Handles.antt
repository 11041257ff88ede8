-- ===== src/Vfs/Session/Handles.antt =====
-- The handles of a session: from the request that opens a file to the one that releases it.
use mathlib.Core.Path.{subst}
use sbfs.Prelude.{
  ℕ, ◌+◌, ◌<◌, ◌≤◌, ◌≡◌, sym, ap, ◌∙◌, Bool, false, ◌==◌, ◌||◌, inl, inr, none, some, List, [], ◌∷◌,
  length, M, arith, Bool-cases,
}
use sbfs.Store.{BlockStore}
use sbfs.Position.{Position}
use sbfs.Path.{Str}
use sbfs.Layout.{Fs}
use sbfs.Fd.{u64, FdManager, init, open_fd, get_fd}
use sbfs.Fd.Counts.{Counts, init-Counts, open_fd-Counts, close_fd-Counts, open_fd-get, close_fd-get}
use sbfs.Fd.Histories.{open_fd-counter, close_fd-fields}
use sbfs.Vfs.{Vfs, Reply, done, error, crash, existing}
use sbfs.Vfs.Files.{open_file}
use sbfs.Vfs.Files.Opens.{open_file-HandleOf}
use sbfs.Vfs.Requests.{Request, release, Result, Call}
use sbfs.Vfs.Session.{serve, serve_all, go_on}
use sbfs.Vfs.Session.Changes.{Change, kept, opened, closed, answer-Change}

-- `sb_release` of the handle.
unfoldable pub releases : ℕ → Request → Bool
releases fh (release gd) = gd == fh
releases fh _ = false

-- A sequence of calls with `sb_release` of a handle among them.
unfoldable pub is_released : ℕ → List Call → Bool
unfolding releases
is_released fh [] = false
is_released fh (c ∷ calls) = let rest = is_released fh calls in releases fh c.request || rest

-- The counter goes up by one request at most.
change-Counts :
    (r : Request) (f g : FdManager)
    → Change r f g
    → f.fd_counter + 1 < u64
    → Counts f
    → Counts g × (g.fd_counter ≤ f.fd_counter + 1)
change-Counts r f g kept h c = (c, omega arith)
change-Counts r f g (opened i) h c = (open_fd-Counts f i h c, omega (arith, open_fd-counter f i))
change-Counts r f g (closed fh) h c =
    (close_fd-Counts f fh c, omega (arith, (close_fd-fields f fh).0))

change-get :
    (r : Request) (f g : FdManager) (fh : ℕ) (p : Position)
    → Change r f g
    → Counts f
    → releases fh r ≡ false
    → get_fd fh f ≡ some p
    → get_fd fh g ≡ some p
unfolding releases
change-get r f g fh p kept c h e = e
change-get r f g fh p (opened i) c h e =
    let (free, found) = open_fd-get f i fh c in
    elim (Bool-cases (fh == (open_fd i f).0)) [
      | inl q ↦ ground (arith, free)
      | inr q ↦ found ∙ rw q e
    ]
change-get r f g fh p (closed gd) c h e = close_fd-get f gd fh c ∙ rw h e

module _ {S : Type 0} where
  go_on-fds :
      (P Q : FdManager → Type 0) (r : Reply Result × Vfs S) (k : Vfs S → Reply (Unit {0}) × Vfs S)
      → P r.1.fds
      → ((f : FdManager) → P f → Q f)
      → ((v : Vfs S) → P v.fds → Q (k v).1.fds)
      → Q (go_on r k).1.fds
  unfolding go_on
  go_on-fds P Q (done a, v) k h l e = e v h
  go_on-fds P Q (error x, v) k h l e = e v h
  go_on-fds P Q (crash, v) k h l e = l v.fds h

-- A handle that is in use, in a table whose counter has room for `n` handles more.
record Held (n : ℕ) (fh : ℕ) (p : Position) (f : FdManager) : Type 0 where
  counts : Counts f
  small : f.fd_counter + n < u64
  found : get_fd fh f ≡ some p

module _ (bs : BlockStore) (fs : Fs) where
  open bs use {State}

  module _ (sync_block : ℕ → M State (Unit {0})) (sync_all : M State (Unit {0}))
      (to_seconds : ℕ × ℕ → ℕ) where
    serve-Held :
        (n fh : ℕ) (p : Position) (c : Call) (v : Vfs State)
        → releases fh c.request ≡ false
        → Held (n + 1) fh p v.fds
        → Held n fh p (serve bs fs sync_block sync_all to_seconds c v).1.fds
    unfolding serve
    serve-Held n fh p c v h k =
        let change =
          answer-Change bs fs sync_block sync_all to_seconds c.now c.uid c.gid v c.request in
        let (counts, le) =
          change-Counts c.request v.fds _ change (omega (arith, k.small)) k.counts in
        record {
          counts = counts;
          small = omega (arith, k.small);
          found = change-get c.request v.fds _ fh p change k.counts h k.found;
        }

    serve_all-Held :
        (fh : ℕ) (p : Position) (calls : List Call) (v : Vfs State)
        → is_released fh calls ≡ false
        → Held (length calls) fh p v.fds
        → get_fd fh (serve_all bs fs sync_block sync_all to_seconds calls v).1.fds ≡ some p
    unfolding serve_all is_released
    serve_all-Held fh p [] v h k = k.found
    serve_all-Held fh p (c ∷ calls) v h k =
        go_on-fds (Held (length calls) fh p) (λ f. get_fd fh f ≡ some p)
          (serve bs fs sync_block sync_all to_seconds c v)
          (serve_all bs fs sync_block sync_all to_seconds calls)
          (serve-Held (length calls) fh p c v (ground arith)
            (subst (λ n. Held n fh p v.fds) (omega arith) k))
          (λ f l. l.found) (λ w l. serve_all-Held fh p calls w (ground arith) l)

    serve_all-Counts :
        (bound : ℕ) (calls : List Call) (v : Vfs State)
        → bound < u64
        → v.fds.fd_counter + length calls ≤ bound
        → Counts v.fds
        → Counts (serve_all bs fs sync_block sync_all to_seconds calls v).1.fds
          × ((serve_all bs fs sync_block sync_all to_seconds calls v).1.fds.fd_counter ≤ bound)
    unfolding serve_all serve
    serve_all-Counts bound [] v small room h = (h, omega arith)
    serve_all-Counts bound (c ∷ calls) v small room h =
        let change =
          answer-Change bs fs sync_block sync_all to_seconds c.now c.uid c.gid v c.request in
        let (counts, le) = change-Counts c.request v.fds _ change (omega arith) h in
        go_on-fds (λ f. Counts f × (f.fd_counter + length calls ≤ bound))
          (λ f. Counts f × (f.fd_counter ≤ bound)) (serve bs fs sync_block sync_all to_seconds c v)
          (serve_all bs fs sync_block sync_all to_seconds calls) (counts, omega arith)
          (λ f (k, l). (k, omega arith)) (λ w (k, l). serve_all-Counts bound calls w small l k)

    -- From a new table of handles on, with fewer than 2 ^ 64 - 11 requests in all: where `sb_open`
    -- returns a handle after a sequence of requests, the handle was not in use, the path led to an
    -- inode, and the handle leads to that inode after every sequence of further requests that does
    -- not release it.
    pub get_fd-serve_all :
        (before after : List Call) (now : ℕ) (path : Str) (fh : ℕ) (v : Vfs State)
        → v.fds ≡ init
        → length before + length after + 11 < u64
        → (open_file bs fs now path (serve_all bs fs sync_block sync_all to_seconds before v).1).0
          ≡ done fh
        → is_released fh after ≡ false
        → (get_fd fh (serve_all bs fs sync_block sync_all to_seconds before v).1.fds ≡ none)
          × (p : Position) × ((existing bs fs now path
                (serve_all bs fs sync_block sync_all to_seconds before v).1).0
              ≡ done p)
          × (get_fd fh
                (serve_all bs fs sync_block sync_all to_seconds after
                  (open_file bs fs now path
                    (serve_all bs fs sync_block sync_all to_seconds before v).1).1).1.fds
              ≡ some p)
    unfolding init
    get_fd-serve_all before after now path fh v new few opens held =
        let w = (serve_all bs fs sync_block sync_all to_seconds before v).1 in
        let (counts, le) =
          serve_all-Counts (length before + 10) before v (omega arith)
            (omega (arith, ap (λ f. f.fd_counter) new)) (subst Counts (sym new) init-Counts) in
        let (p, leads, at, after_open) = open_file-HandleOf bs fs now path fh w opens in
        let (free, found) = open_fd-get w.fds p fh counts in
        (
          ap (λ n. get_fd n w.fds) (sym at) ∙ free,
          p,
          leads,
          serve_all-Held fh p after (open_file bs fs now path w).1 held (
              subst (Held (length after) fh p) after_open (record {
                counts = open_fd-Counts w.fds p (omega arith) counts;
                small = omega (arith, open_fd-counter w.fds p);
                found = found ∙ ground (arith, at);
              })),
        )
