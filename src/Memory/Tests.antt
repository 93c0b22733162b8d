-- ===== src/Memory/Tests.antt =====
-- The theorems on guest memory at a memory of two pages.
use ferrvm.Prelude.{◌≡◌, ◌<◌, ◌≤◌, ◌+◌, ◌^◌, ok, ◌↔◌}
use ferrvm.Memory.{GuestMemory, checked_hva}
use ferrvm.Memory.Access.{checked_hva_iff}

abbrev two_pages : GuestMemory
two_pages = record { size = 8192; byte_at = λ a. 0 }

checked_hva_iff_example :
    (checked_hva two_pages 8190 2 ≡ ok 8190) ↔ ((8190 + 2 < 2 ^ 64) × (8190 + 2 ≤ 8192))
checked_hva_iff_example = checked_hva_iff two_pages 8190 2
