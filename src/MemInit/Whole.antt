-- ===== src/MemInit/Whole.antt =====
-- mem_init as a whole. Three of the kernel's self checks, check_page_alloc, check_page and
-- check_page_installed_pgdir, are arguments; the last two use the directory. The bits of cr0, which need
-- the processor, are left out. A page above 4 MB that is touched before cr3 is loaded is no fault here.
use jos_miles.Prelude.{ℕ, true, false}
use jos_miles.Kernel.{Cmd, ◌>>◌}
use jos_miles.PageAlloc.{page_init}
use jos_miles.Ports.{Ports}
use jos_miles.Clock.{i386_detect_memory}
use jos_miles.Env.{Sys, Outcome, done, Call, then_do, on_kernel}
use jos_miles.Env.Switch.{lcr3}
use jos_miles.MemInit.{zero_env, boot_tables, map_kernel}
use jos_miles.MemInit.Check.{check_kern_pgdir}
use jos_miles.MemInit.Check.Listed.{check_page_free_list}

abbrev pub with_npages : ℕ → Sys → Sys
with_npages n s = record s { kernel = record (s.kernel) { npages = n } }

module _ (check_page_alloc : Cmd (Unit {0})) (check_page : ℕ → Cmd (Unit {0}))
    (check_page_installed_pgdir : ℕ → Cmd (Unit {0})) where
  -- From page_init to check_kern_pgdir.
  unfoldable pub init_pages : ℕ → ℕ → ℕ → ℕ → ℕ → ℕ → Cmd (Unit {0})
  unfolding check_page_free_list
  init_pages kend bootstack kern_pgdir pages envs size = do
    page_init kend
    check_page_free_list kend true
    check_page_alloc
    check_page kern_pgdir
    map_kernel bootstack kern_pgdir pages envs size
    check_kern_pgdir kern_pgdir pages envs bootstack

  -- `bootstack` is the address of the array that entry.S defines.
  unfoldable pub mem_init : {D : Type 0} → Ports D → ℕ → ℕ → D → Sys → Outcome (Unit {0}) × D
  unfolding init_pages
  mem_init ports kend bootstack d s =
      let ((npages, npages_basemem), d') = i386_detect_memory ports d in
      let run : Call (Unit {0}) = on_kernel (boot_tables kend) λ (kern_pgdir, pages, envs, size) s1.
        on_kernel (init_pages kend bootstack kern_pgdir pages envs size)
          (λ _ s2. then_do (lcr3 kern_pgdir s2) λ _ s3.
            on_kernel (check_page_free_list kend false >> check_page_installed_pgdir kern_pgdir)
              (λ _ s4. done tt s4) s3)
          (record s1 { kern_pgdir = kern_pgdir; envs = λ e. zero_env }) in
      (run (with_npages npages s), d')
