-- ===== src/Mmu/Gate.antt =====
-- Gate and segment descriptors: SETGATE, SEG, SEG16 and SEG_NULL of inc/mmu.h.
use jos_miles.Prelude.{ℕ, ◌/◌, ◌%◌, ◌^◌, Bool, bit_and, bit_or, ◌==◌, if◌then◌else◌}

pub record Gatedesc : Type 0 where
  pub gd_off_15_0 : ℕ
  pub gd_sel : ℕ
  pub gd_args : ℕ
  pub gd_rsv1 : ℕ
  pub gd_type : ℕ
  pub gd_s : ℕ
  pub gd_dpl : ℕ
  pub gd_p : ℕ
  pub gd_off_31_16 : ℕ

abbrev pub sts_ig32 : ℕ
sts_ig32 = 0xe

abbrev pub sts_tg32 : ℕ
sts_tg32 = 0xf

-- Fields keep the width that the struct gives them.
unfoldable pub setgate : Bool → ℕ → ℕ → ℕ → Gatedesc
setgate istrap sel off dpl = record {
  gd_off_15_0 = bit_and off 0xffff;
  gd_sel = sel % 2 ^ 16;
  gd_args = 0;
  gd_rsv1 = 0;
  gd_type = if istrap then sts_tg32 else sts_ig32;
  gd_s = 0;
  gd_dpl = dpl % 4;
  gd_p = 1;
  gd_off_31_16 = off / 2 ^ 16 % 2 ^ 16;
}

pub record Segdesc : Type 0 where
  pub sd_lim_15_0 : ℕ
  pub sd_base_15_0 : ℕ
  pub sd_base_23_16 : ℕ
  pub sd_type : ℕ
  pub sd_s : ℕ
  pub sd_dpl : ℕ
  pub sd_p : ℕ
  pub sd_lim_19_16 : ℕ
  pub sd_avl : ℕ
  pub sd_rsv1 : ℕ
  pub sd_db : ℕ
  pub sd_g : ℕ
  pub sd_base_31_24 : ℕ

unfoldable pub seg_null : Segdesc
seg_null = record {
  sd_lim_15_0 = 0;
  sd_base_15_0 = 0;
  sd_base_23_16 = 0;
  sd_type = 0;
  sd_s = 0;
  sd_dpl = 0;
  sd_p = 0;
  sd_lim_19_16 = 0;
  sd_avl = 0;
  sd_rsv1 = 0;
  sd_db = 0;
  sd_g = 0;
  sd_base_31_24 = 0;
}

-- `(unsigned) lim >> 28` is cut to the four bits of sd_lim_19_16.
unfoldable pub seg : ℕ → ℕ → ℕ → ℕ → Segdesc
seg type base lim dpl = record {
  sd_lim_15_0 = bit_and (lim / 2 ^ 12) 0xffff;
  sd_base_15_0 = bit_and base 0xffff;
  sd_base_23_16 = bit_and (base / 2 ^ 16) 0xff;
  sd_type = type % 16;
  sd_s = 1;
  sd_dpl = dpl % 4;
  sd_p = 1;
  sd_lim_19_16 = lim / 2 ^ 28 % 16;
  sd_avl = 0;
  sd_rsv1 = 0;
  sd_db = 1;
  sd_g = 1;
  sd_base_31_24 = base / 2 ^ 24 % 256;
}

unfoldable pub seg16 : ℕ → ℕ → ℕ → ℕ → Segdesc
seg16 type base lim dpl = record {
  sd_lim_15_0 = bit_and lim 0xffff;
  sd_base_15_0 = bit_and base 0xffff;
  sd_base_23_16 = bit_and (base / 2 ^ 16) 0xff;
  sd_type = type % 16;
  sd_s = 1;
  sd_dpl = dpl % 4;
  sd_p = 1;
  sd_lim_19_16 = lim / 2 ^ 16 % 16;
  sd_avl = 0;
  sd_rsv1 = 0;
  sd_db = 1;
  sd_g = 0;
  sd_base_31_24 = base / 2 ^ 24 % 256;
}

-- The types of segments, and `gdt` of kern/env.c: slot i belongs to the selector 8 * i.
abbrev pub sta_x : ℕ
sta_x = 0x8

abbrev pub sta_w : ℕ
sta_w = 0x2

abbrev pub sta_r : ℕ
sta_r = 0x2

unfoldable pub gdt : ℕ → Segdesc
unfolding seg seg_null
gdt i =
    if i == 0x08 / 8
    then seg (bit_or sta_x sta_r) 0 0xffff_ffff 0
    else if i == 0x10 / 8
    then seg sta_w 0 0xffff_ffff 0
    else if i == 0x18 / 8
    then seg (bit_or sta_x sta_r) 0 0xffff_ffff 3
    else if i == 0x20 / 8
    then seg sta_w 0 0xffff_ffff 3
    else seg_null
