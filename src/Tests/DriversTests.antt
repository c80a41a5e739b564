-- ===== src/Tests/DriversTests.antt =====
-- The drivers on small inputs.
use windows_10_js.Prelude.{ℕ, ◌≡◌, refl, true, false, List, [], ◌∷◌, some, none, arith, inl, inr}
use windows_10_js.Hal.Memory.{Memory, read8, read16, read32, write8, write16, write32}
use windows_10_js.Drivers.Vga.{Vga, write}
use windows_10_js.Drivers.Vga.Screen.{IsOnScreen, write-IsOnScreen}
use windows_10_js.Drivers.Keyboard.{Keyboard, poll_key}
use windows_10_js.Drivers.Keyboard.Decoding.{
  IsWaiting, Holds, poll_all, characters, character, shift_step, shift_after, poll_all-characters,
}
use windows_10_js.Tests.Sample.{zeros}

-- Shift, `a` pressed and released, shift released, then `a` and 0xE0.
abbrev typed : List ℕ
typed = 0x2A ∷ 0x1E ∷ 0x9E ∷ 0xAA ∷ 0x1E ∷ 0xE0 ∷ []

sample_answers : characters typed false ≡ none ∷ some b'A' ∷ none ∷ none ∷ some b'a' ∷ none ∷ []
unfolding characters character shift_step
sample_answers = refl

-- They wait in the ring, from its last place on.
abbrev ring : Memory
ring =
    write32
      (write32 (write8 (write32 (write8 zeros 0x81507 0x2A) 0x81408 0x1EAA_9E1E) 0x8140C 0xE0)
        0x81404 255)
      0x81400 5

abbrev keys : Keyboard
keys = record { shift = false; port = []; available = true; memory = ring }

keys-IsWaiting : IsWaiting keys typed
unfolding IsWaiting Holds read32 read16 read8 write32 write16 write8
keys-IsWaiting =
    inl (refl, omega arith, omega arith, refl, (refl, (refl, (refl, (refl, (refl, (refl, tt)))))))

poll_all-characters_example :
    ((poll_all 6 keys).0 ≡ characters typed false)
    × ((poll_all 6 keys).1.shift ≡ shift_after typed false)
    × (poll_key (poll_all 6 keys).1 ≡ (none, (poll_all 6 keys).1))
poll_all-characters_example =
    poll_all-characters typed keys
      (omega arith, (omega arith, (omega arith, (omega arith, (omega arith, (omega arith, tt))))))
      keys-IsWaiting

-- The cursor in the last cell: the next character scrolls.
abbrev last_cell : Vga
last_cell = record { cx = 79; cy = 24; attr = 7; memory = zeros; ports = [] }

last_cell-IsOnScreen : IsOnScreen last_cell
last_cell-IsOnScreen = record { column = omega arith; row = omega arith }

write-IsOnScreen_example :
    IsOnScreen (write (b'h' ∷ b'i' ∷ 10 ∷ []) last_cell)
    × (read8 (write (b'h' ∷ b'i' ∷ 10 ∷ []) last_cell).memory 0xB8FA0 ≡ read8 zeros 0xB8FA0)
write-IsOnScreen_example =
    write-IsOnScreen (b'h' ∷ b'i' ∷ 10 ∷ []) last_cell 0xB8FA0 last_cell-IsOnScreen
      (inr (omega arith))
