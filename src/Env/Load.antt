-- ===== src/Env/Load.antt =====
-- load_icode and env_create: a program's image becomes a new environment.
--
-- The image is part of the kernel's own data, a memory of bytes of its own. The bytes that memcpy and
-- memset write at user addresses go where the processor finds them, through the directory in cr3; a
-- byte that cannot be written there is a page fault in the kernel.
use jos_miles.Prelude.{
  ℕ, zero, suc, ◌+◌, ◌-◌, ◌*◌, ◌/◌, ◌%◌, ◌^◌, Bool, ◌&&◌, not, none, some, ◌==◌, if◌then◌else◌,
}
use jos_miles.Mmu.{u32, sub32, pgsize, ustacktop}
use jos_miles.Elf.{Proghdr, elf_magic, elf_prog_load, sizeof_proghdr, elf_at, proghdr_at}
use jos_miles.Kernel.{
  Cmd, pure, panic, ◌>>◌, store, kernel_page_fault, no_elf_magic, cannot_alloc_env,
}
use jos_miles.PageTable.Space.{page_at, pde, dir_index, entry}
use jos_miles.Env.{done, panicked, Call, then_do, on_kernel, set_env, env_alloc}
use jos_miles.Env.Region.{region_alloc}
use jos_miles.Env.Switch.{lcr3}

-- Byte `lane` of a word, and the word with another value there.
unfoldable pub get_lane : ℕ → ℕ → ℕ
get_lane word lane = word / 2 ^ (8 * lane) % 256

unfoldable pub set_lane : ℕ → ℕ → ℕ → ℕ
set_lane word lane v =
    word / 2 ^ (8 * lane + 8) * 2 ^ (8 * lane + 8) + v * 2 ^ (8 * lane) + word % 2 ^ (8 * lane)

-- The word that holds the byte at offset `off` of page p.
abbrev pub word_of : ℕ → ℕ → ℕ
word_of p off = page_at p + 4 * (off / 4)

-- Present and writable.
abbrev pub allows : ℕ → Bool
allows e = (e % 2 == 1) && (e / 2 % 2 == 1)

-- A byte written at a virtual address, with the directory in page d.
unfoldable pub write_byte : ℕ → ℕ → ℕ → Cmd (Unit {0})
write_byte d va v k =
    let e = entry k.mem d va in
    let a = word_of (e / 4096 % 2 ^ 20) (va % 4096) in
    if allows (pde k.mem d (dir_index va)) && allows e
    then store a (set_lane (k.mem a) (va % 4) v) k
    else panic kernel_page_fault k

-- The bytes `bytes 0`, ..., `bytes (n - 1)`, from `va` on.
unfoldable pub write_bytes : ℕ → ℕ → (ℕ → ℕ) → ℕ → Cmd (Unit {0})
unfolding write_byte
write_bytes d va bytes zero = pure tt
write_bytes d va bytes (suc n) = write_bytes d va bytes n >> write_byte d (u32 (va + n)) (bytes n)

-- The body of the loop over the program headers.
unfoldable pub load_segment : ℕ → ℕ → (ℕ → ℕ) → Proghdr → Cmd (Unit {0})
unfolding write_bytes
load_segment pgdir d binary ph =
    if ph.p_type == elf_prog_load
    then (do
      region_alloc pgdir ph.p_va ph.p_memsz
      write_bytes d ph.p_va (λ i. binary (ph.p_offset + i)) ph.p_filesz
      write_bytes d (u32 (ph.p_va + ph.p_filesz)) (λ i. 0) (sub32 ph.p_memsz ph.p_filesz))
    else pure tt

unfoldable pub load_segments : ℕ → ℕ → (ℕ → ℕ) → ℕ → ℕ → Cmd (Unit {0})
load_segments pgdir d binary ph zero = pure tt
load_segments pgdir d binary ph (suc n) =
    load_segment pgdir d binary (proghdr_at binary ph)
    >> load_segments pgdir d binary (ph + sizeof_proghdr) n

unfoldable pub load_icode : ℕ → (ℕ → ℕ) → Call (Unit {0})
unfolding lcr3 load_segments
load_icode e binary s =
    let pgdir = (s.envs e).env_pgdir in
    let elfhdr = elf_at binary 0 in
    then_do (lcr3 pgdir s) λ _ s1.
      if not (elfhdr.e_magic == elf_magic)
      then panicked no_elf_magic
      else on_kernel (load_segments pgdir (s1.cr3 / pgsize) binary elfhdr.e_phoff elfhdr.e_phnum)
          (λ _ s2. then_do (lcr3 s2.kern_pgdir s2) λ _ s3.
            on_kernel (region_alloc pgdir (ustacktop - pgsize) pgsize)
              (λ _ s4.
                let env = s4.envs e in
                done tt (
                  set_env s4 e (record env {
                    env_tf = record (env.env_tf) { tf_esp = ustacktop; tf_eip = elfhdr.e_entry };
                  })))
              s3)
          s1

-- Every environment is of the one type ENV_TYPE_USER.
unfoldable pub env_create : (ℕ → ℕ) → Call (Unit {0})
unfolding load_icode
env_create binary s = then_do (env_alloc 0 s) λ (made, result) s'. elim result [
  | some _ ↦ panicked cannot_alloc_env
  | none ↦ elim made [
    | none ↦ panicked cannot_alloc_env
    | some e ↦ load_icode e binary (set_env s' e (record (s'.envs e) { env_parent_id = 0 }))
  ]
]
