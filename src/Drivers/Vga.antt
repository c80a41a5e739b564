-- ===== src/Drivers/Vga.antt =====
-- system32/drivers/video/vga.js: text mode of 80 columns and 25 rows. A text is the list of its
-- UTF-16 code units; the writes to the ports of the cursor are kept in order.
pub mod Screen
use windows_10_js.Prelude.{
  ℕ, zero, suc, ◌+◌, ◌-◌, ◌*◌, ◌/◌, ◌%◌, List, [], ◌∷◌, ◌++◌, ◌==◌, ltb, leb, if◌then◌else◌,
}
use windows_10_js.Hal.Memory.{Memory, read16, write16}

abbrev pub mem : ℕ
mem = 0xB8000

abbrev pub width : ℕ
width = 80

abbrev pub height : ℕ
height = 25

pub record Vga : Type 0 where
  pub cx : ℕ
  pub cy : ℕ
  pub attr : ℕ
  pub memory : Memory
  pub ports : List (ℕ × ℕ)

-- The address of the cell in row `y` and column `x`.
abbrev pub cell : ℕ → ℕ → ℕ
cell y x = mem + (y * width + x) * 2

unfoldable pub hw_cursor : Vga → Vga
hw_cursor v =
    let p = v.cy * width + v.cx in
    record v {
      ports =
          v.ports ++ (0x3D4, 0x0F) ∷ (0x3D5, p % 256) ∷ (0x3D4, 0x0E) ∷ (0x3D5, p / 256 % 256) ∷ [];
    }

-- `(attr << 8) | c` for a byte `c`
abbrev glyph : ℕ → ℕ → ℕ
glyph attr c = attr * 256 + c

unfoldable pub blank : ℕ → ℕ
blank attr = glyph attr 0x20

-- The loops have the number of their rounds left as first argument.
unfoldable pub clear_cells : (rounds x y attr : ℕ) → Memory → Memory
unfolding blank
clear_cells zero x y attr m = m
clear_cells (suc n) x y attr m = clear_cells n (x + 1) y attr (write16 m (cell y x) (blank attr))

unfoldable pub clear_line : ℕ → ℕ → Memory → Memory
unfolding clear_cells
clear_line y attr m = clear_cells width 0 y attr m

unfoldable pub copy_cells : (rounds x y : ℕ) → Memory → Memory
copy_cells zero x y m = m
copy_cells (suc n) x y m = copy_cells n (x + 1) y (write16 m (cell (y - 1) x) (read16 m (cell y x)))

unfoldable pub copy_rows : (rounds y : ℕ) → Memory → Memory
unfolding copy_cells
copy_rows zero y m = m
copy_rows (suc n) y m = copy_rows n (y + 1) (copy_cells width 0 y m)

unfoldable pub scroll : Vga → Vga
unfolding copy_rows clear_line
scroll v = record v {
  memory = clear_line (height - 1) v.attr (copy_rows (height - 1) 1 v.memory);
  cy = height - 1;
}

-- What `putc` does before it scrolls, for the code unit `c`.
unfoldable pub place : ℕ → Vga → Vga
unfolding blank
place c v =
    if c == 10
    then record v { cx = 0; cy = v.cy + 1 }
    else if c == 13
    then record v { cx = 0 }
    else if c == 8
    then (if v.cx == 0 then v else record v {
      cx = v.cx - 1;
      memory = write16 v.memory (cell v.cy (v.cx - 1)) (blank v.attr);
    })
    else if c == 9
    then (let next = (v.cx + 8) / 8 * 8 in
        if leb width next then record v { cx = 0; cy = v.cy + 1 } else record v { cx = next })
    else (let memory = write16 v.memory (cell v.cy v.cx) (glyph v.attr (c % 256)) in
        if leb width (v.cx + 1)
        then record v { cx = 0; cy = v.cy + 1; memory = memory }
        else record v { cx = v.cx + 1; memory = memory })

unfoldable pub putc : ℕ → Vga → Vga
unfolding place scroll
putc c v = let v' = place c v in if leb height v'.cy then scroll v' else v'

unfoldable pub put_all : List ℕ → Vga → Vga
unfolding putc
put_all [] v = v
put_all (c ∷ cs) v = put_all cs (putc c v)

unfoldable pub write : List ℕ → Vga → Vga
unfolding put_all hw_cursor
write s v = hw_cursor (put_all s v)

unfoldable pub clear_lines : (rounds y attr : ℕ) → Memory → Memory
unfolding clear_line
clear_lines zero y attr m = m
clear_lines (suc n) y attr m = clear_lines n (y + 1) attr (clear_line y attr m)

unfoldable pub clear : Vga → Vga
unfolding clear_lines hw_cursor
clear v = hw_cursor (record v { memory = clear_lines height 0 v.attr v.memory; cx = 0; cy = 0 })

unfoldable pub set_attr : ℕ → Vga → Vga
set_attr a v = record v { attr = a % 256 }
