-- ===== src/Elf.antt =====
-- The ELF format of inc/elf.h: the headers as they lie in bytes, the low byte of a number first.
use jos_miles.Prelude.{ℕ, ◌+◌, ◌*◌, ◌^◌}

abbrev pub elf_magic : ℕ
elf_magic = 0x464c_457f

-- The fields of `struct Elf` that the loaders read.
pub record Elf : Type 0 where
  pub e_magic : ℕ
  pub e_entry : ℕ
  pub e_phoff : ℕ
  pub e_phnum : ℕ

-- Those of `struct Proghdr`.
pub record Proghdr : Type 0 where
  pub p_type : ℕ
  pub p_offset : ℕ
  pub p_va : ℕ
  pub p_pa : ℕ
  pub p_filesz : ℕ
  pub p_memsz : ℕ

abbrev pub elf_prog_load : ℕ
elf_prog_load = 1

-- sizeof(struct Proghdr)
abbrev pub sizeof_proghdr : ℕ
sizeof_proghdr = 32

-- A number of 16 and one of 32 bits in a memory of bytes.
abbrev pub short_at : (ℕ → ℕ) → ℕ → ℕ
short_at mem a = mem a + 2 ^ 8 * mem (a + 1)

abbrev pub long_at : (ℕ → ℕ) → ℕ → ℕ
long_at mem a = mem a + 2 ^ 8 * mem (a + 1) + 2 ^ 16 * mem (a + 2) + 2 ^ 24 * mem (a + 3)

unfoldable pub elf_at : (ℕ → ℕ) → ℕ → Elf
elf_at mem a = record {
  e_magic = long_at mem a;
  e_entry = long_at mem (a + 24);
  e_phoff = long_at mem (a + 28);
  e_phnum = short_at mem (a + 44);
}

unfoldable pub proghdr_at : (ℕ → ℕ) → ℕ → Proghdr
proghdr_at mem a = record {
  p_type = long_at mem a;
  p_offset = long_at mem (a + 4);
  p_va = long_at mem (a + 8);
  p_pa = long_at mem (a + 12);
  p_filesz = long_at mem (a + 16);
  p_memsz = long_at mem (a + 20);
}
