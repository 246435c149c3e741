-- ===== src/Console/Devices/Tests.antt =====
-- A tab on an empty screen, with devices that are always ready.
use jos_miles.Prelude.{ℕ, ◌≡◌, refl, List, [], ◌∷◌, ◌==◌, if◌then◌else◌, arith, ◌%◌}
use jos_miles.Ports.{Ports}
use jos_miles.Console.{Crt, cga_putc}
use jos_miles.Console.Devices.{com1, cga_base, cons_putc}
use jos_miles.Console.Devices.Sent.{IsRecorded, cons_putc-sent}

abbrev line : Ports (List ℕ)
line = record {
  inb = λ port sent. (0xe0, sent);
  outb = λ port v sent. if port == com1 then v ∷ sent else sent;
  outw = λ port v sent. sent;
  insl = λ port n sent. (λ i. 0, sent);
}

abbrev screen : Crt
screen = record { crt_pos = 0; crt_buf = λ i. 0x720 }

line-IsRecorded : IsRecorded line (λ sent. sent)
line-IsRecorded = record { input = λ port d. refl; output = λ port v d. refl }

cons_putc-sent_example :
    ((cons_putc line cga_base 0x09 screen []).0 ≡ cga_putc 0x09 screen)
    × ((cons_putc line cga_base 0x09 screen []).1 ≡ (
        if 0x09 % 256 == 0x09
        then 0x20 ∷ 0x20 ∷ 0x20 ∷ 0x20 ∷ 0x20 ∷ 0x09 ∷ []
        else 0x09 % 256 ∷ []))
cons_putc-sent_example =
    cons_putc-sent line (λ sent. sent) line-IsRecorded cga_base (omega arith) (omega arith) 0x09
      screen []
