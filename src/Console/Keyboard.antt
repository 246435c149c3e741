-- ===== src/Console/Keyboard.antt =====
-- The keyboard of kern/console.c: kbd_proc_data and its tables. A missing entry of a table is 0.
use jos_miles.Prelude.{
  ℕ, ◌+◌, ◌-◌, Bool, false, ◌&&◌, not, Option, none, some, List, [], ◌∷◌, leb, ◌==◌, if◌then◌else◌,
  get_or, bit_and, bit_or, bit_xor,
}

abbrev pub ctl_key : ℕ
ctl_key = 2

abbrev pub alt_key : ℕ
alt_key = 4

abbrev pub capslock : ℕ
capslock = 8

abbrev pub e0esc : ℕ
e0esc = 64

abbrev pub key_del : ℕ
key_del = 0xe9

-- The modifier that a key holds.
unfoldable pub shiftcode : ℕ → ℕ
shiftcode byte =
    if byte == 0x1d
    then 2
    else if byte == 0x2a
    then 1
    else if byte == 0x36
    then 1
    else if byte == 0x38
    then 4
    else if byte == 0x9d
    then 2
    else if byte == 0xb8
    then 4
    else 0

-- The lock that a key changes.
unfoldable pub togglecode : ℕ → ℕ
togglecode byte =
    if byte == 0x3a then 8 else if byte == 0x45 then 16 else if byte == 0x46 then 32 else 0

-- The keys with an escape, which normalmap, shiftmap and ctlmap share: those from KEY_UP to KEY_DEL.
abbrev escaped_map : ℕ → ℕ
escaped_map byte =
    if byte == 0xc8
    then 0xe2
    else if byte == 0xc9
    then 0xe6
    else if byte == 0xcb
    then 0xe4
    else if byte == 0xcd
    then 0xe5
    else if byte == 0xcf
    then 0xe1
    else if byte == 0xd0
    then 0xe3
    else if byte == 0xd1
    then 0xe7
    else if byte == 0xd2
    then 0xe8
    else if byte == 0xd3
    then 0xe9
    else 0

abbrev plain_keys : List ℕ
plain_keys =
    0 ∷ 27 ∷ 49 ∷ 50 ∷ 51 ∷ 52 ∷ 53 ∷ 54 ∷ 55 ∷ 56 ∷ 57 ∷ 48 ∷ 45 ∷ 61 ∷ 8 ∷ 9 ∷ 113 ∷ 119 ∷ 101
    ∷ 114 ∷ 116 ∷ 121 ∷ 117 ∷ 105 ∷ 111 ∷ 112 ∷ 91 ∷ 93 ∷ 10 ∷ 0 ∷ 97 ∷ 115 ∷ 100 ∷ 102 ∷ 103 ∷ 104
    ∷ 106 ∷ 107 ∷ 108 ∷ 59 ∷ 39 ∷ 96 ∷ 0 ∷ 92 ∷ 122 ∷ 120 ∷ 99 ∷ 118 ∷ 98 ∷ 110 ∷ 109 ∷ 44 ∷ 46 ∷ 47
    ∷ 0 ∷ 42 ∷ 0 ∷ 32 ∷ 0 ∷ 0 ∷ 0 ∷ 0 ∷ 0 ∷ 0 ∷ 0 ∷ 0 ∷ 0 ∷ 0 ∷ 0 ∷ 0 ∷ 0 ∷ 55 ∷ 56 ∷ 57 ∷ 45 ∷ 52
    ∷ 53 ∷ 54 ∷ 43 ∷ 49 ∷ 50 ∷ 51 ∷ 48 ∷ 46 ∷ 0 ∷ 0 ∷ 0 ∷ 0 ∷ []

abbrev shifted_keys : List ℕ
shifted_keys =
    0 ∷ 27 ∷ 33 ∷ 64 ∷ 35 ∷ 36 ∷ 37 ∷ 94 ∷ 38 ∷ 42 ∷ 40 ∷ 41 ∷ 95 ∷ 43 ∷ 8 ∷ 9 ∷ 81 ∷ 87 ∷ 69 ∷ 82
    ∷ 84 ∷ 89 ∷ 85 ∷ 73 ∷ 79 ∷ 80 ∷ 123 ∷ 125 ∷ 10 ∷ 0 ∷ 65 ∷ 83 ∷ 68 ∷ 70 ∷ 71 ∷ 72 ∷ 74 ∷ 75 ∷ 76
    ∷ 58 ∷ 34 ∷ 126 ∷ 0 ∷ 124 ∷ 90 ∷ 88 ∷ 67 ∷ 86 ∷ 66 ∷ 78 ∷ 77 ∷ 60 ∷ 62 ∷ 63 ∷ 0 ∷ 42 ∷ 0 ∷ 32
    ∷ 0 ∷ 0 ∷ 0 ∷ 0 ∷ 0 ∷ 0 ∷ 0 ∷ 0 ∷ 0 ∷ 0 ∷ 0 ∷ 0 ∷ 0 ∷ 55 ∷ 56 ∷ 57 ∷ 45 ∷ 52 ∷ 53 ∷ 54 ∷ 43 ∷ 49
    ∷ 50 ∷ 51 ∷ 48 ∷ 46 ∷ 0 ∷ 0 ∷ 0 ∷ 0 ∷ []

abbrev control_keys : List ℕ
control_keys =
    0 ∷ 0 ∷ 0 ∷ 0 ∷ 0 ∷ 0 ∷ 0 ∷ 0 ∷ 0 ∷ 0 ∷ 0 ∷ 0 ∷ 0 ∷ 0 ∷ 0 ∷ 0 ∷ 17 ∷ 23 ∷ 5 ∷ 18 ∷ 20 ∷ 25 ∷ 21
    ∷ 9 ∷ 15 ∷ 16 ∷ 0 ∷ 0 ∷ 13 ∷ 0 ∷ 1 ∷ 19 ∷ 4 ∷ 6 ∷ 7 ∷ 8 ∷ 10 ∷ 11 ∷ 12 ∷ 0 ∷ 0 ∷ 0 ∷ 0 ∷ 28 ∷ 26
    ∷ 24 ∷ 3 ∷ 22 ∷ 2 ∷ 14 ∷ 13 ∷ 0 ∷ 0 ∷ 239 ∷ 0 ∷ 0 ∷ []

-- KEY_HOME, Enter and Div of normalmap and shiftmap
abbrev home_map : ℕ → ℕ
home_map byte =
    if byte == 0xc7
    then 0xe0
    else if byte == 0x9c
    then 10
    else if byte == 0xb5
    then 47
    else escaped_map byte

unfoldable pub normalmap : ℕ → ℕ
normalmap byte = get_or plain_keys byte (home_map byte)

unfoldable pub shiftmap : ℕ → ℕ
shiftmap byte = get_or shifted_keys byte (home_map byte)

-- `C('/')` is -17, as a uint8_t 239.
unfoldable pub ctlmap : ℕ → ℕ
ctlmap byte =
    get_or control_keys byte
      (if byte == 0x97 then 0xe0 else if byte == 0xb5 then 239 else escaped_map byte)

-- `charcode[shift & (CTL | SHIFT)][byte]`
unfoldable pub charcode : ℕ → ℕ → ℕ
charcode i byte = if i == 0 then normalmap byte else if i == 1 then shiftmap byte else ctlmap byte

-- The static variable `shift`, the result (`none` for -1), and whether the machine is rebooted.
pub record Key : Type 0 where
  pub shift : ℕ
  pub result : Option ℕ
  pub reboots : Bool

-- `~x` on 32 bits
abbrev pub not32 : ℕ → ℕ
not32 x = 0xffff_ffff - x

unfoldable pub swap_case : ℕ → ℕ
swap_case c = if leb 97 c && leb c 122 then c - 32 else if leb 65 c && leb c 90 then c + 32 else c

-- What a key press does, with its code after the escape is taken into account.
unfoldable pub press : ℕ → ℕ → Key
press shift byte =
    let shift1 = bit_xor (bit_or shift (shiftcode byte)) (togglecode byte) in
    let c0 = charcode (bit_and shift1 3) byte in
    let c = if bit_and shift1 capslock == 0 then c0 else swap_case c0 in
    record {
      shift = shift1;
      result = some c;
      reboots = (bit_and (not32 shift1) (bit_or ctl_key alt_key) == 0) && (c == key_del);
    }

-- A key release; the code 0x80 + d without an escape is that of the key d.
unfoldable pub release : ℕ → ℕ → Key
release shift byte =
    let key = if bit_and shift e0esc == 0 then bit_and byte 0x7f else byte in
    record {
      shift = bit_and shift (not32 (bit_or (shiftcode key) e0esc));
      result = some 0;
      reboots = false;
    }

-- `none` where the keyboard has no byte.
unfoldable pub kbd_proc_data : Option ℕ → ℕ → Key
kbd_proc_data none shift = record { shift = shift; result = none; reboots = false }
kbd_proc_data (some byte) shift =
    if byte == 0xe0
    then record { shift = bit_or shift e0esc; result = some 0; reboots = false }
    else if not (bit_and byte 0x80 == 0)
    then release shift byte
    else if not (bit_and shift e0esc == 0)
    then press (bit_and shift (not32 e0esc)) (bit_or byte 0x80)
    else press shift byte
