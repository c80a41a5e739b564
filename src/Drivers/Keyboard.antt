-- ===== src/Drivers/Keyboard.antt =====
-- system32/drivers/input/keyboard.js: scancodes of set 1 to characters, polled from the ring of
-- system32/nano/interrupts.js or from the port. Characters are their code
-- units; a 0 in a table is a key with no character.
pub mod Decoding
use Prim.Native.Nat.{bit_and}
use windows_10_js.Prelude.{
  ℕ, zero, suc, ◌+◌, ◌%◌, Bool, true, false, ◌||◌, Option, none, some, List, [], ◌∷◌, ◌==◌,
  get_elem?, if◌then◌else◌,
}
use windows_10_js.Hal.Memory.{Memory, read8, read32, write32}

abbrev pub normal : List ℕ
normal =
    0 ∷ 0 ∷ b'1' ∷ b'2' ∷ b'3' ∷ b'4' ∷ b'5' ∷ b'6' ∷ b'7' ∷ b'8' ∷ b'9' ∷ b'0' ∷ b'-' ∷ b'=' ∷ 8
    ∷ 9 ∷ b'q' ∷ b'w' ∷ b'e' ∷ b'r' ∷ b't' ∷ b'y' ∷ b'u' ∷ b'i' ∷ b'o' ∷ b'p' ∷ b'[' ∷ b']' ∷ 10 ∷ 0
    ∷ b'a' ∷ b's' ∷ b'd' ∷ b'f' ∷ b'g' ∷ b'h' ∷ b'j' ∷ b'k' ∷ b'l' ∷ b';' ∷ 39 ∷ b'`' ∷ 0 ∷ 92
    ∷ b'z' ∷ b'x' ∷ b'c' ∷ b'v' ∷ b'b' ∷ b'n' ∷ b'm' ∷ b',' ∷ b'.' ∷ b'/' ∷ 0 ∷ b'*' ∷ 0 ∷ b' ' ∷ []

abbrev pub shifted : List ℕ
shifted =
    0 ∷ 0 ∷ b'!' ∷ b'@' ∷ b'#' ∷ b'$' ∷ b'%' ∷ b'^' ∷ b'&' ∷ b'*' ∷ b'(' ∷ b')' ∷ b'_' ∷ b'+' ∷ 8
    ∷ 9 ∷ b'Q' ∷ b'W' ∷ b'E' ∷ b'R' ∷ b'T' ∷ b'Y' ∷ b'U' ∷ b'I' ∷ b'O' ∷ b'P' ∷ b'{' ∷ b'}' ∷ 10 ∷ 0
    ∷ b'A' ∷ b'S' ∷ b'D' ∷ b'F' ∷ b'G' ∷ b'H' ∷ b'J' ∷ b'K' ∷ b'L' ∷ b':' ∷ b'"' ∷ b'~' ∷ 0 ∷ b'|'
    ∷ b'Z' ∷ b'X' ∷ b'C' ∷ b'V' ∷ b'B' ∷ b'N' ∷ b'M' ∷ b'<' ∷ b'>' ∷ b'?' ∷ 0 ∷ b'*' ∷ 0 ∷ b' ' ∷ []

-- The ring of scancodes that IRQ 1 fills: where its head, its tail and its 256 bytes are.
abbrev pub kbd_head : ℕ
kbd_head = 0x81400

abbrev pub kbd_tail : ℕ
kbd_tail = 0x81404

abbrev pub kbd_data : ℕ
kbd_data = 0x81408

-- The module's `shift`; the bytes that wait at the data port 0x60, where the status port 0x64 has
-- its low bit set while there is one; what `Interrupts.isAvailable()` answers; and memory.
pub record Keyboard : Type 0 where
  pub shift : Bool
  pub port : List ℕ
  pub available : Bool
  pub memory : Memory

abbrev pub is_shift : ℕ → Bool
is_shift make = (make == 0x2A) || (make == 0x36)

-- `os.readPort8(PORT_DT)` for its effect.
abbrev pub drop_byte : List ℕ → List ℕ
drop_byte [] = []
drop_byte (b ∷ bs) = bs

abbrev pub named : Option ℕ → Option ℕ
named none = none
named (some zero) = none
named (some (suc c)) = some (suc c)

unfoldable pub decode : ℕ → Keyboard → Option ℕ × Keyboard
decode sc k =
    if bit_and sc 0x80 == 0
    then (if is_shift sc
        then (none, record k { shift = true })
        else if sc == 0xE0
        then (none, record k { port = drop_byte k.port })
        else (named (get_elem? (if k.shift then shifted else normal) sc), k))
    else (none, if is_shift (bit_and sc 0x7F) then record k { shift = false } else k)

-- `Interrupts.pollScancode`, which answers -1 for `none`.
unfoldable pub poll_scancode : Memory → Option ℕ × Memory
poll_scancode m =
    let head = read32 m kbd_head in
    let tail = read32 m kbd_tail in
    if head == tail
    then (none, m)
    else (some (read8 m (kbd_data + tail)), write32 m kbd_tail ((tail + 1) % 256))

abbrev pub decode_polled : Option ℕ → Keyboard → Option ℕ × Keyboard
decode_polled none k = (none, k)
decode_polled (some sc) k = decode sc k

-- The next byte of the ring, or of the data port without interrupts, if there is one.
unfoldable pub poll_key : Keyboard → Option ℕ × Keyboard
unfolding decode poll_scancode
poll_key k =
    if k.available
    then (let polled = poll_scancode k.memory in
        decode_polled polled.0 (record k { memory = polled.1 }))
    else elim k.port [ [] ↦ (none, k) | sc ∷ rest ↦ decode sc (record k { port = rest }) ]
