-- ===== src/Tests/Devices.antt =====
-- The theorems on the block cache and the block device, at an empty cache and at a full
-- one over a disk in memory.
use sbfs.Prelude.{List, [], ◌∷◌, arith, ℕ, ◌≡◌, refl, none, some, ◌==◌, if◌then◌else◌}
use sbfs.Store.{Leaves}
use sbfs.Cache.{Device, init_cache, sync, alloc}
use sbfs.Cache.Valid.{Valid, view}
use sbfs.Cache.Alloc.{alloc_lem}
use sbfs.Cache.Alloc.Taken.{Allocated}
use sbfs.Cache.Page.{Paged, get_page_lem}
use sbfs.Device.{read, write, write_tx}
use sbfs.Device.Laws.{read-view, write-view}
use sbfs.Cache.Sync.{Synced, sync-Synced}
use sbfs.Cache.Victim.{alloc-same_victim}
use sbfs.Block.{Block}
use sbfs.Device.Batch.{Present, after_writes, write_tx-view}
use sbfs.Cache.Start.{start, init_cache-Valid}
use sbfs.Tests.{disk, ram_disk, ram_disk-IsHealthy, device, device-Valid, full, full-Valid, filled}

read-view_example :
    Leaves
      (Valid ram_disk)
      (view ram_disk)
      (read ram_disk 3 device)
      (filled 0)
      (view ram_disk device)
unfolding init_cache
read-view_example = read-view ram_disk ram_disk-IsHealthy device 3 device-Valid refl

write-view_example :
    Leaves
      (Valid ram_disk)
      (view ram_disk)
      (write ram_disk 3 (filled 7) device)
      tt
      (λ j. if 3 == j then some (filled 7) else view ram_disk device j)
unfolding init_cache
write-view_example = write-view ram_disk ram_disk-IsHealthy device 3 (filled 7) device-Valid refl

alloc_lem_example : (s : ℕ) × (w : Device ram_disk) × Allocated ram_disk full s w
alloc_lem_example = alloc_lem ram_disk ram_disk-IsHealthy full full-Valid

get_page_lem_example : (s : ℕ) × (w : Device ram_disk) × Paged ram_disk device 3 s w
unfolding init_cache
get_page_lem_example = get_page_lem ram_disk ram_disk-IsHealthy device 3 device-Valid refl

-- A disk that ends after block 1.
abbrev short : Device ram_disk
short = record device { disk = λ i. if i == 0 then some (filled 0) else none }

init_cache-Valid_example :
    Valid ram_disk (start ram_disk disk 3 (λ i. filled 9))
    × ((i : ℕ) → view ram_disk (start ram_disk disk 3 (λ i. filled 9)) i ≡ disk i)
init_cache-Valid_example = init_cache-Valid ram_disk disk 3 (λ i. filled 9) (omega arith)

sync-Synced_example : Synced ram_disk full 3 (sync ram_disk 3 full)
sync-Synced_example = sync-Synced ram_disk ram_disk-IsHealthy full 3 0 full-Valid refl

alloc-same_victim_example :
    ((alloc ram_disk full).1 ≡ some 0)
    × ((alloc ram_disk full).2.cache.free_first ≡ none)
    × ((alloc ram_disk full).2.cache.lru_last ≡ some 0)
alloc-same_victim_example =
    alloc-same_victim ram_disk ram_disk-IsHealthy full 0 full-Valid refl refl

abbrev writes : List (ℕ × Block)
writes = (3, filled 7) ∷ (4, filled 8) ∷ (3, filled 9) ∷ []

writes-Present : Present (view ram_disk device) writes
unfolding Present init_cache
writes-Present = ((filled 0, refl), ((filled 0, refl), ((filled 0, refl), tt)))

write_tx-view_example :
    Leaves
      (Valid ram_disk)
      (view ram_disk)
      (write_tx ram_disk writes device)
      tt
      (after_writes writes (view ram_disk device))
write_tx-view_example =
    write_tx-view ram_disk ram_disk-IsHealthy device writes device-Valid writes-Present
