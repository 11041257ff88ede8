-- ===== src/Tests/Sessions.antt =====
-- The theorems on sessions and on runs of the program: the root directory is opened, and a disk
-- with a super block is mounted and unmounted.
use sbfs.Prelude.{ℕ, ◌≡◌, refl, false, Option, none, some, List, [], ◌∷◌, M, pure, arith}
use sbfs.Block.{Block}
use sbfs.Position.{Position}
use sbfs.Path.{Str}
use sbfs.Fd.{init, open_fd, get_fd}
use sbfs.Resolver.{resolve, is_absolute}
use sbfs.Vfs.{done, existing, resolve_path}
use sbfs.Vfs.Files
use sbfs.Vfs.Files.Opens.{open_file-done}
use sbfs.Vfs.Requests.{Call, Request, statfs, read, open_file}
use sbfs.Vfs.Session.{serve_all}
use sbfs.Vfs.Session.Handles.{is_released, releases, get_fd-serve_all}
use sbfs.Tests.{memory, filled}
use sbfs.Tests.Roots.{place, fs, start}

-- `/`.
abbrev path : Str
path = 47 ∷ []

-- The path leads to the root.
root_found : (existing memory fs 9 path start).0 ≡ done place
unfolding existing resolve_path resolve is_absolute
root_found = refl

abbrev fh : ℕ
fh = (open_fd place init).0

abbrev sync_block : ℕ → M (ℕ → Option Block) (Unit {0})
sync_block id = pure tt

abbrev sync_all : M (ℕ → Option Block) (Unit {0})
sync_all = pure tt

abbrev seconds : ℕ × ℕ → ℕ
seconds (s, ns) = s

abbrev call : Request → Call
call r = record { request = r; now = 9; uid = 0; gid = 0 }

abbrev calls : List Call
calls = call (read (filled 0) 8 0 fh) ∷ call (open_file path) ∷ call statfs ∷ []

not_released : is_released fh calls ≡ false
unfolding is_released releases
not_released = refl

get_fd-serve_all_example :
    (get_fd fh init ≡ none)
    × (p : Position) × ((existing memory fs 9 path start).0 ≡ done p)
    × (get_fd fh
          (serve_all memory fs sync_block sync_all seconds calls
            (Files.open_file memory fs 9 path start).1).1.fds
        ≡ some p)
unfolding serve_all
get_fd-serve_all_example =
    get_fd-serve_all memory fs sync_block sync_all seconds [] calls 9 path fh start refl
      (omega arith) (open_file-done memory fs 9 path place start root_found) not_released
