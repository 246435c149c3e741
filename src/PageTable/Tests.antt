-- ===== src/PageTable/Tests.antt =====
-- Runs of the page table operations.
use jos_miles.Prelude.{List, ◌*◌, ℕ, ◌*◌, ◌/◌, ◌%◌, ◌^◌, ◌≡◌, refl, none, inl, inr, arith}
use jos_miles.Mmu.{pte_u}
use jos_miles.Kernel.{Kernel, ok}
use jos_miles.PageTable.{page_remove, user_mem_check, boot_map_region}
use jos_miles.PageTable.Space.{page_at, user_part, entry, entry_at}
use jos_miles.PageTable.Remove.{page_remove-mapped, after_remove}
use jos_miles.PageTable.Insert.{Inserted, page_insert_lem}
use jos_miles.PageTable.Region.{Mapped, boot_map_region-Mapped}
use jos_miles.PageTable.UserMem.{first_bad, report, user_mem_check-first_bad, user_mem_check-wraps}
use jos_miles.Sample.{
  machine, spare, machine-FreeList, machine-IsSpace, machine-InMemory, machine-HasTable,
  machine-InUse,
}

page_remove-mapped_example :
    page_remove (page_at 10) 0 machine
    ≡ ok tt (
        after_remove 0 (entry_at machine.mem 10 0) (entry machine.mem 10 0 / 4096 % 2 ^ 20) machine)
unfolding entry
page_remove-mapped_example =
    page_remove-mapped machine 10 0 machine-HasTable refl (omega arith) machine-InUse

page_insert_lem_example : (k' : Kernel) × Inserted user_part machine 10 0 13 6 spare k'
unfolding entry
page_insert_lem_example =
    page_insert_lem user_part machine 10 0 13 6 spare refl machine-IsSpace machine-FreeList
      (inl refl) (inr (refl, omega arith, machine-InUse)) (omega arith) (omega arith) refl
      (omega arith)

user_mem_check-first_bad_example :
    user_mem_check (page_at 10) 4090 10 pte_u machine
    ≡ report machine (first_bad machine 10 pte_u 4090 10)
user_mem_check-first_bad_example =
    user_mem_check-first_bad machine 10 pte_u machine-InMemory 4090 10 (omega arith)

user_mem_check-wraps_example :
    user_mem_check (page_at 10) 0x1000 0xffff_ffff pte_u machine ≡ ok none machine
user_mem_check-wraps_example =
    user_mem_check-wraps (page_at 10) 0x1000 0xffff_ffff pte_u machine (omega arith) (omega arith)
      (omega arith) (omega arith)

-- Two pages across a table's end, at 0x7ff000, to the pages 60 and 61.
boot_map_region-Mapped_example :
    (k' : Kernel) × (free' : List ℕ) × (boot_map_region
        (page_at 10)
        (2047 * 4096)
        8192
        (60 * 4096)
        2
        machine
      ≡ ok tt k')
    × Mapped user_part machine 10 2047 2 60 2 spare k' free'
boot_map_region-Mapped_example =
    boot_map_region-Mapped user_part machine 10 2047 8192 60 2 spare (omega arith) (omega arith)
      (λ i h. ground arith) machine-IsSpace machine-FreeList (omega arith)
