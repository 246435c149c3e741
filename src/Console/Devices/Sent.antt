-- ===== src/Console/Devices/Sent.antt =====
-- Where a character goes.
use jos_miles.Prelude.{
  ℕ, zero, suc, ◌+◌, ◌%◌, ◌≡◌, ◌≢◌, refl, ap, ◌∙◌, List, ◌∷◌, ◌==◌, arith, if◌then◌else◌, bit_and,
  Bool-cases, inl, inr, ==_iff,
}
use jos_miles.Ports.{Ports}
use jos_miles.Console.{Crt, cga_putc}
use jos_miles.Console.Devices.{
  com1, delay, wait_for, serial_putc, lpt_putc, move_cursor, cons_plain, spaces, cons_putc,
}

-- Devices that keep a list of what the serial line has been given to send, the last first: a byte
-- that is written to its port joins the list, and nothing else changes it.
pub record IsRecorded {D : Type 0} (ports : Ports D) (sent : D → List ℕ) : Type 0 where
  pub input : (port : ℕ) (d : D) → sent (ports.inb port d).1 ≡ sent d
  pub output :
      (port v : ℕ) (d : D)
      → sent (ports.outb port v d) ≡ (if port == com1 then v ∷ sent d else sent d)

-- So many spaces in front of what was sent before.
unfoldable blanks : ℕ → List ℕ → List ℕ
blanks zero line = line
blanks (suc n) line = blanks n (0x20 ∷ line)

module _ {D : Type 0} (ports : Ports D) (sent : D → List ℕ) (rec : IsRecorded ports sent) where
  wait_for-sent : (port mask n : ℕ) (d : D) → sent (wait_for ports port mask n d) ≡ sent d
  unfolding wait_for
  wait_for-sent port mask zero d = rec.input port d
  wait_for-sent port mask (suc n) d = elim (Bool-cases (bit_and (ports.inb port d).0 mask == 0)) [
    | inl busy ↦ rw busy (
        wait_for-sent port mask n (delay ports (ports.inb port d).1)
        ∙ delay_lem (ports.inb port d).1
        ∙ rec.input port d)
    | inr ready ↦ rw ready (rec.input port d)
  ]
    where
      delay_lem : (d : D) → sent (delay ports d) ≡ sent d
      delay_lem d = rec.input _ _ ∙ rec.input _ _ ∙ rec.input _ _ ∙ rec.input _ _

  serial_putc-sent : (c : ℕ) (d : D) → sent (serial_putc ports c d) ≡ c % 256 ∷ sent d
  unfolding serial_putc
  serial_putc-sent c d =
      rec.output com1 (c % 256) (wait_for ports (com1 + 5) 0x20 12800 d)
      ∙ ap (λ l. c % 256 ∷ l) (wait_for-sent (com1 + 5) 0x20 12800 d)

  lpt_putc-sent : (c : ℕ) (d : D) → sent (lpt_putc ports c d) ≡ sent d
  unfolding lpt_putc
  lpt_putc-sent c d =
      rec.output _ _ _
      ∙ rec.output _ _ _
      ∙ rec.output _ _ _
      ∙ wait_for-sent (0x378 + 1) 0x80 12800 d

  module _ (addr : ℕ) (apart : addr ≢ com1) (apart' : addr + 1 ≢ com1) where
    other_port : (port v : ℕ) (d : D) → port ≢ com1 → sent (ports.outb port v d) ≡ sent d
    other_port port v d ne = ground (arith, rec.output port v d)

    move_cursor-sent : (pos : ℕ) (d : D) → sent (move_cursor ports addr pos d) ≡ sent d
    unfolding move_cursor
    move_cursor-sent pos d =
        other_port (addr + 1) _ _ apart'
        ∙ other_port addr _ _ apart
        ∙ other_port (addr + 1) _ _ apart'
        ∙ other_port addr _ _ apart

    cons_plain-sent :
        (c : ℕ) (crt : Crt) (d : D) → sent (cons_plain ports addr c crt d).1 ≡ c % 256 ∷ sent d
    unfolding cons_plain
    cons_plain-sent c crt d =
        move_cursor-sent _ _ ∙ lpt_putc-sent c (serial_putc ports c d) ∙ serial_putc-sent c d

    spaces-sent :
        (n : ℕ) (crt : Crt) (d : D) → sent (spaces ports addr n crt d).1 ≡ blanks n (sent d)
    unfolding spaces blanks
    spaces-sent zero crt d = refl
    spaces-sent (suc n) crt d =
        let (crt', d') = cons_plain ports addr 0x20 crt d in
        spaces-sent n crt' d' ∙ ap (blanks n) (cons_plain-sent 0x20 crt d)

    tab-sent :
        (c pos : ℕ) (crt : Crt) (d : D)
        → sent (
            move_cursor ports addr pos
              (spaces ports addr 5 crt (lpt_putc ports c (serial_putc ports c d))).1)
          ≡ blanks 5 (c % 256 ∷ sent d)
    tab-sent c pos crt d =
        move_cursor-sent pos _
        ∙ spaces-sent 5 crt _
        ∙ ap (blanks 5) (lpt_putc-sent c _ ∙ serial_putc-sent c d)

    -- With devices that keep a list of what the serial line has been given to send, and display ports
    -- that are not that of the serial line, every character goes to the serial line once, as its low
    -- byte, and then to the screen; a tab goes there as a tab with five spaces behind it, and to the
    -- screen as five spaces.
    pub cons_putc-sent :
        (c : ℕ) (crt : Crt) (d : D)
        → ((cons_putc ports addr c crt d).0 ≡ cga_putc c crt)
          × (sent (cons_putc ports addr c crt d).1 ≡ (
              if c % 256 == 0x09
              then 0x20 ∷ 0x20 ∷ 0x20 ∷ 0x20 ∷ 0x20 ∷ 0x09 ∷ sent d
              else c % 256 ∷ sent d))
    unfolding cons_putc cga_putc spaces blanks
    cons_putc-sent c crt d = elim (Bool-cases (c % 256 == 0x09)) [
      | inr plain ↦ rw plain (refl, cons_plain-sent c crt d)
      | inl tab ↦ rw tab (
        refl,
        tab-sent c _ crt d ∙ ap (blanks 5) (ap (λ b. b ∷ sent d) ((==_iff (c % 256) 0x09).0 tab)),
      )
    ]
