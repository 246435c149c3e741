-- ===== src/Env/Region/Tests.antt =====
-- region_alloc of one page in the sample's space.
use jos_miles.Prelude.{List, ℕ, ◌+◌, ◌*◌, ◌<◌, ◌≡◌, ◌≤◌, ◌%◌, ◌↔◌, arith}
use jos_miles.Kernel.{Kernel, ok}
use jos_miles.PageTable.Space.{page_at, entry, user_part}
use jos_miles.Env.Region.{region_alloc}
use jos_miles.Env.Region.Backed.{Backed, region_alloc-Backed}
use jos_miles.Env.Region.Covered.{rounds_of, page_of, region_alloc_covers_iff}
use jos_miles.Sample.{machine, spare, machine-IsSpace, machine-FreeList}

clear : (i : ℕ) → i < 1 → entry machine.mem 10 ((2048 + i) * 4096) ≡ 0
unfolding entry
clear i h = ground arith

region_alloc-Backed_example :
    (k' : Kernel) × (free' : List ℕ) × (region_alloc (page_at 10) 0x800ff8 16 machine ≡ ok tt k')
    × Backed user_part machine 10 2048 1 spare k' free'
region_alloc-Backed_example =
    region_alloc-Backed user_part machine 10 0x800ff8 16 spare (omega arith) (λ i h. ground arith)
      clear machine-IsSpace machine-FreeList (omega arith)

clear_next : (i : ℕ) → i ≤ 1 → entry machine.mem 10 ((2048 + i) * 4096) ≡ 0
unfolding entry
clear_next i h = ground arith

region_alloc_covers_iff_example :
    (k' : Kernel) × (region_alloc (page_at 10) 0x800ff8 16 machine ≡ ok tt k')
    × ((b : ℕ)
        → b < 16
        → (entry k'.mem 10 (page_of 0x800ff8 b * 4096) % 2 ≡ 1)
          ↔ (0x800ff8 % 4096 + b < rounds_of 16 * 4096))
region_alloc_covers_iff_example =
    region_alloc_covers_iff user_part machine 10 0x800ff8 16 spare (omega arith)
      (λ i h. ground arith) clear_next machine-IsSpace machine-FreeList (omega arith)
