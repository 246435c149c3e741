-- ===== src/Mmu/Tests.antt =====
-- Runs of the macros.
use jos_miles.Prelude.{◌≡◌, refl}
use jos_miles.Mmu.{pdx, ptx, pgoff, pgaddr, roundup, ulim, utop}

fields_of_deadbeef :
    (pdx 0xdeadbeef ≡ 0x37a) × (ptx 0xdeadbeef ≡ 0x2db) × (pgoff 0xdeadbeef ≡ 0xeef)
unfolding pdx ptx pgoff
fields_of_deadbeef = (refl, refl, refl)

rebuilt : pgaddr 0x37a 0x2db 0xeef ≡ 0xdeadbeef
unfolding pgaddr
rebuilt = refl

layout : (ulim ≡ 0xef80_0000) × (utop ≡ 0xeec0_0000) × (roundup 4097 4096 ≡ 8192)
unfolding roundup
layout = (refl, refl, refl)
