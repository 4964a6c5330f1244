-- ===== src/StubDrive/Create/Sizes.antt =====
-- The size of a stub file.
use abschlussarbeit.Common.{ℕ, ◌+◌, ◌%◌, ◌≤◌, ◌<◌, ◌≡◌, arith}
use abschlussarbeit.StubDrive.Create.{drive_size, fc_sector_size}

-- A stub file is cut to whole sectors: to the fewest that hold all of its bytes.
pub drive_size_lem :
    (n : ℕ)
    → (drive_size n % fc_sector_size ≡ 0) × (n ≤ drive_size n) × (drive_size n < n + fc_sector_size)
unfolding drive_size
drive_size_lem n = ground arith
