-- ===== src/Desc/Tests.antt =====
-- Examples for src/desc.c, with one file and one directory open.
use xipfs.Base.{ℕ, ◌-◌, ◌<◌, ◌≡◌, ◌≢◌, ◌⊎◌, ◌==◌, if◌then◌else◌, refl, none, update, arith}
use xipfs.Errno.{xipfs_ok}
use xipfs.Posix
use xipfs.State.{World, Mount, done, fail, Ensures, DescEntry, desc_free, desc_file, desc_dir}
use xipfs.Buffer.{initial_buffer}
use xipfs.Desc.{
  max_open_desc, desc_track, desc_tracked, desc_untrack, desc_update, move_file, track_loop,
}
use xipfs.Desc.Table.{IsTable, Absent}
use xipfs.Desc.Track.{
  Tracked, Refused, Untracked, IsTracked, desc_track_lem, desc_tracked_lem, desc_untrack_lem,
  untrack-track,
}
use xipfs.Desc.Update.{Updated, desc_update_lem, move_file-ne}

abbrev table : ℕ → DescEntry
table i =
    if i == 0
    then record { type = desc_file; addr = 1000 }
    else if i == 1
    then record { type = desc_dir; addr = 2000 }
    else record { type = desc_free; addr = 0 }

table-IsTable : IsTable table
table-IsTable = record {
  unique = λ i j li lj e n. ground arith;
  free = λ i li e. ground arith;
  used = λ i li e. ground arith;
}

abbrev world : World
world = record {
  mem = λ _. 255;
  buffer = initial_buffer;
  errno = xipfs_ok;
  open_desc = table;
  file_descs = λ _. record { filp = 45056; pos = 3; flags = 0 };
  dir_descs = λ _. record { filp = 40960; dirname = λ _. 0 };
}

abbrev mount : Mount
mount = record {
  magic = 0;
  mount_path = none;
  page_num = 8;
  page_addr = 40960;
  execution_mutex = 0;
  mutex = 0;
}

desc_track_lem_example :
    Ensures
      (λ _ w'. Tracked 3000 desc_file world w')
      (Refused 3000 world)
      (desc_track 3000 desc_file world)
desc_track_lem_example =
    desc_track_lem 3000 desc_file world table-IsTable (λ h. omega (arith, h)) (λ h. cc)

desc_tracked_lem_example :
    ((desc_tracked 2000 desc_file world ≡ done tt world) × IsTracked table 2000 desc_file)
    ⊎ ((desc_tracked 2000 desc_file world ≡ fail Posix.ebadf world)
        × Absent table 2000 max_open_desc 0)
    ⊎ ((desc_tracked 2000 desc_file world ≡ fail Posix.eio world)
        × ((i : ℕ) × (i < max_open_desc) × ((table i).addr ≡ 2000) × ((table i).type ≢ desc_file)))
desc_tracked_lem_example =
    desc_tracked_lem 2000 desc_file world table-IsTable (λ h. omega (arith, h))

desc_untrack_lem_example :
    Ensures
      (λ _ w'. Untracked 1000 desc_file world w')
      (λ e w'. (w' ≡ world) × (e ≡ Posix.eio) × (IsTracked table 1000 desc_file → ⊥))
      (desc_untrack 1000 desc_file world)
desc_untrack_lem_example =
    desc_untrack_lem 1000 desc_file world table-IsTable (λ h. omega (arith, h))

abbrev tracked : World
tracked = record world { open_desc = update table 2 (record { type = desc_file; addr = 3000 }) }

tracks : desc_track 3000 desc_file world ≡ done tt tracked
unfolding desc_track track_loop
tracks = refl

untrack-track_example :
    (w : World) × (desc_untrack 3000 desc_file tracked ≡ done tt w)
    × ((i : ℕ) → w.open_desc i ≡ table i)
untrack-track_example =
    untrack-track 3000 desc_file world tracked table-IsTable (λ h. omega (arith, h)) (λ h. cc)
      tracks

-- The directory's file is removed: 4096 bytes.
desc_update_lem_example :
    (w : World) × (desc_update 8000 mount 40960 4096 world ≡ done tt w)
    × IsTable w.open_desc
    × ((j : ℕ) → j < max_open_desc → Updated 8000 mount 40960 4096 world w j)
desc_update_lem_example =
    desc_update_lem 8000 mount 40960 4096 world table-IsTable (λ h. omega (arith, h)) (omega arith)

move_file-ne_example : move_file 45056 4096 ≢ 45056 - 4096
move_file-ne_example =
    move_file-ne 45056 4096 (omega arith) (omega arith) (omega arith) (omega arith)
