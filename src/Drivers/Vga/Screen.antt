-- ===== src/Drivers/Vga/Screen.antt =====
-- The cursor stays on the screen, and nothing outside the screen's memory is written.
use windows_10_js.Prelude.{
  ℕ, zero, suc, ◌+◌, ◌-◌, ◌*◌, ◌≤◌, ◌<◌, ◌≡◌, ◌∙◌, refl, ◌⊎◌, List, [], ◌∷◌, arith, ◌%◌, leb,
  Bool-cases, inl, inr,
}
use windows_10_js.Hal.Memory.{Memory, read8, write16}
use windows_10_js.Hal.Memory.Cells.{read8-write16_outside}
use windows_10_js.Drivers.Vga.{
  Vga, mem, cell, width, height, clear_cells, clear_line, copy_cells, copy_rows, scroll, place,
  putc, put_all, write, clear, clear_lines, blank, hw_cursor,
}

-- An address outside the 4000 bytes of the screen.
abbrev pub OffScreen : ℕ → Type 0
OffScreen b = (b < mem) ⊎ (mem + 4000 ≤ b)

pub record IsOnScreen (v : Vga) : Type 0 where
  pub column : v.cx < width
  pub row : v.cy < height

write-cell :
    (b y x v : ℕ) (m : Memory)
    → OffScreen b
    → y < height
    → x < width
    → read8 (write16 m (cell y x) v) b ≡ read8 m b
write-cell b y x v m o hy hx = read8-write16_outside m (cell y x) v b (omega arith)

clear_cells-OffScreen :
    (n x y attr b : ℕ) (m : Memory)
    → OffScreen b
    → y < height
    → x + n ≤ width
    → read8 (clear_cells n x y attr m) b ≡ read8 m b
unfolding clear_cells
clear_cells-OffScreen zero x y attr b m o hy hx = refl
clear_cells-OffScreen (suc n) x y attr b m o hy hx =
    clear_cells-OffScreen n (x + 1) y attr b _ o hy (omega arith)
    ∙ write-cell b y x _ m o hy (omega arith)

copy_cells-OffScreen :
    (n x y b : ℕ) (m : Memory)
    → OffScreen b
    → y < height
    → x + n ≤ width
    → read8 (copy_cells n x y m) b ≡ read8 m b
unfolding copy_cells
copy_cells-OffScreen zero x y b m o hy hx = refl
copy_cells-OffScreen (suc n) x y b m o hy hx =
    copy_cells-OffScreen n (x + 1) y b _ o hy (omega arith)
    ∙ write-cell b (y - 1) x _ m o (omega arith) (omega arith)

copy_rows-OffScreen :
    (n y b : ℕ) (m : Memory) → OffScreen b → y + n ≤ height → read8 (copy_rows n y m) b ≡ read8 m b
unfolding copy_rows
copy_rows-OffScreen zero y b m o h = refl
copy_rows-OffScreen (suc n) y b m o h =
    copy_rows-OffScreen n (y + 1) b _ o (omega arith)
    ∙ copy_cells-OffScreen width 0 y b m o (omega arith) (omega arith)

-- What one character does to a screen: the cursor stays on it, and so do the writes.
record Keeps (v v' : Vga) : Type 0 where
  on_screen : IsOnScreen v'
  off_screen : (b : ℕ) → OffScreen b → read8 v'.memory b ≡ read8 v.memory b

scroll-off : (v : Vga) (b : ℕ) → OffScreen b → read8 (scroll v).memory b ≡ read8 v.memory b
unfolding scroll clear_line
scroll-off v b o =
    clear_cells-OffScreen width 0 (height - 1) v.attr b _ o (omega arith) (omega arith)
    ∙ copy_rows-OffScreen (height - 1) 1 b v.memory o (omega arith)

place-column :
    (c : ℕ) (v : Vga) → IsOnScreen v → ((place c v).cx < width) × ((place c v).cy < height + 1)
unfolding place
place-column c v s = ground arith

place-off :
    (c : ℕ) (v : Vga) (b : ℕ)
    → IsOnScreen v
    → OffScreen b
    → read8 (place c v).memory b ≡ read8 v.memory b
unfolding place
place-off c v b s o = ground (
  arith,
  write-cell b v.cy v.cx (v.attr * 256 + c % 256) v.memory o,
  write-cell b v.cy (v.cx - 1) (blank v.attr) v.memory o,
)

scroll-row : (v : Vga) → v.cx < width → IsOnScreen (scroll v)
unfolding scroll
scroll-row v h = record { column = h; row = omega arith }

putc-Keeps : (c : ℕ) (v : Vga) → IsOnScreen v → Keeps v (putc c v)
unfolding putc
putc-Keeps c v s = elim (Bool-cases (leb height (place c v).cy)) [
  | inl full ↦ rw full (record {
    on_screen = scroll-row (place c v) (place-column c v s).0;
    off_screen = λ b o. scroll-off (place c v) b o ∙ place-off c v b s o;
  })
  | inr room ↦ rw room (record {
    on_screen = record { column = (place-column c v s).0; row = ground arith };
    off_screen = λ b o. place-off c v b s o;
  })
]

put_all-Keeps : (cs : List ℕ) (v : Vga) → IsOnScreen v → Keeps v (put_all cs v)
unfolding put_all
put_all-Keeps [] v s = record { on_screen = s; off_screen = λ b o. refl }
put_all-Keeps (c ∷ cs) v s =
    let first = putc-Keeps c v s in
    let rest = put_all-Keeps cs (putc c v) first.on_screen in
    record {
      on_screen = rest.on_screen;
      off_screen = λ b o. rest.off_screen b o ∙ first.off_screen b o;
    }

-- Whatever text is written, control characters and scrolling included: a cursor on the screen
-- stays on it, and no byte of memory outside the 4000 bytes of the screen changes.
pub write-IsOnScreen :
    (cs : List ℕ) (v : Vga) (b : ℕ)
    → IsOnScreen v
    → OffScreen b
    → IsOnScreen (write cs v) × (read8 (write cs v).memory b ≡ read8 v.memory b)
unfolding write hw_cursor
write-IsOnScreen cs v b s o =
    let all = put_all-Keeps cs v s in
    (record { column = all.on_screen.column; row = all.on_screen.row }, all.off_screen b o)

clear_lines-OffScreen :
    (n y attr b : ℕ) (m : Memory)
    → OffScreen b
    → y + n ≤ height
    → read8 (clear_lines n y attr m) b ≡ read8 m b
unfolding clear_lines clear_line
clear_lines-OffScreen zero y attr b m o h = refl
clear_lines-OffScreen (suc n) y attr b m o h =
    clear_lines-OffScreen n (y + 1) attr b _ o (omega arith)
    ∙ clear_cells-OffScreen width 0 y attr b m o (omega arith) (omega arith)

-- Clearing puts the cursor on the screen wherever it was, and changes no byte outside the screen.
pub clear-IsOnScreen :
    (v : Vga) (b : ℕ)
    → OffScreen b
    → IsOnScreen (clear v) × (read8 (clear v).memory b ≡ read8 v.memory b)
unfolding clear hw_cursor
clear-IsOnScreen v b o = (
  record { column = omega arith; row = omega arith },
  clear_lines-OffScreen height 0 v.attr b v.memory o (omega arith),
)
