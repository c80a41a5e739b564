-- ===== src/Drivers/Keyboard/Decoding.antt =====
-- What the keyboard driver answers.
use Prim.Native.Nat.{bit_and}
use windows_10_js.Prelude.{
  ℕ, zero, suc, ◌%◌, ◌<◌, ◌≡◌, ◌∙◌, refl, ap, subst, sym, ◌+◌, Bool, true, false, Bool-cases, ◌||◌,
  not, ◌&&◌, Option, none, some, List, [], ◌∷◌, arith, ◌==◌, ltb, get_elem?, if◌then◌else◌, length,
  ◌⊎◌, inl, inr,
}
use windows_10_js.Hal.Memory.{Memory, read8, read32, write32}
use windows_10_js.Hal.Memory.Cells.{
  read8-write32_outside, read32-write32_same, read32-write32_outside,
}
use windows_10_js.Drivers.Keyboard.{
  Keyboard, kbd_head, kbd_tail, kbd_data, normal, shifted, is_shift, named, decode, decode_polled,
  poll_scancode, poll_key,
}

-- The two tests of a byte's high bit.
masks_agree : ℕ → Bool
masks_agree sc =
    (bit_and sc 0x7F == sc % 128)
    && (if ltb sc 128 then bit_and sc 0x80 == 0 else not (bit_and sc 0x80 == 0))

all_below : ℕ → (ℕ → Bool) → Bool
all_below zero p = true
all_below (suc n) p = p n && all_below n p

all_below-use : (n : ℕ) (p : ℕ → Bool) (i : ℕ) → all_below n p ≡ true → i < n → p i ≡ true
unfolding all_below
all_below-use zero p i h lt = ground arith
all_below-use (suc n) p i h lt = ground (arith, all_below-use n p i)

bytes_agree : all_below 256 masks_agree ≡ true
unfolding all_below masks_agree
bytes_agree = refl

low_bits : (sc : ℕ) → sc < 256 → bit_and sc 0x7F ≡ sc % 128
unfolding masks_agree
low_bits sc h = let all = all_below-use 256 masks_agree sc bytes_agree h in ground arith

high_bit : (sc : ℕ) → sc < 256 → (bit_and sc 0x80 == 0) ≡ ltb sc 128
unfolding masks_agree
high_bit sc h = let all = all_below-use 256 masks_agree sc bytes_agree h in ground arith

-- The shift key after the scancode `sc`: 0x2A and 0x36 press it, 0xAA and 0xB6 release it.
unfoldable pub shift_step : ℕ → Bool → Bool
shift_step sc b =
    if (sc == 0x2A) || (sc == 0x36) then true else if (sc == 0xAA) || (sc == 0xB6) then false else b

decode-shift : (sc : ℕ) (k : Keyboard) → sc < 256 → (decode sc k).1.shift ≡ shift_step sc k.shift
unfolding decode shift_step
decode-shift sc k h =
    let low = low_bits sc h in let high = high_bit sc h in rw (low, high) (ground arith)

is_none : Option ℕ → Bool
is_none none = true
is_none (some a) = false

-- What a table has for a key: no character for a shift key, nor past 127.
no_character : List ℕ → ℕ → Bool
no_character table sc =
    if ltb sc 128 && not (is_shift sc) then true else is_none (named (get_elem? table sc))

normal_agrees : all_below 256 (no_character normal) ≡ true
unfolding all_below no_character is_none
normal_agrees = refl

shifted_agrees : all_below 256 (no_character shifted) ≡ true
unfolding all_below no_character is_none
shifted_agrees = refl

-- The character of a scancode, by the tables alone.
unfoldable pub character : ℕ → Bool → Option ℕ
character sc true = named (get_elem? shifted sc)
character sc false = named (get_elem? normal sc)

is_none-none : (o : Option ℕ) → is_none o ≡ true → o ≡ none
unfolding is_none
is_none-none none h = refl
is_none-none (some a) h = ground arith

no_character-none :
    (table : List ℕ) (sc : ℕ)
    → all_below 256 (no_character table) ≡ true
    → sc < 256
    → (ltb sc 128 ≡ false) ⊎ (is_shift sc ≡ true)
    → named (get_elem? table sc) ≡ none
unfolding no_character is_none
no_character-none table sc all h out =
    let test = all_below-use 256 (no_character table) sc all h in
    let none_there = is_none-none (named (get_elem? table sc)) in ground arith

-- `decode` with the table that the shift key selects.
lookup-character :
    (table : List ℕ) (sc : ℕ) (k : Keyboard)
    → all_below 256 (no_character table) ≡ true
    → sc < 256
    → (if k.shift then shifted else normal) ≡ table
    → decode sc k ≡ (named (get_elem? table sc), record k { shift = shift_step sc k.shift })
unfolding decode shift_step
lookup-character table sc k all h sel =
    let low = low_bits sc h in
    let high = high_bit sc h in
    let high_none = λ (e : ltb sc 128 ≡ false). no_character-none table sc all h (inl e) in
    let key_none = λ (e : is_shift sc ≡ true). no_character-none table sc all h (inr e) in
    rw (low, high, sel) (ground arith)

decode-character :
    (sc : ℕ) (k : Keyboard)
    → sc < 256
    → decode sc k ≡ (character sc k.shift, record k { shift = shift_step sc k.shift })
unfolding character
decode-character sc k h = elim (Bool-cases k.shift) [
  | inl pressed ↦
      lookup-character shifted sc k shifted_agrees h (rw pressed refl)
      ∙ ap (λ c. (c, record k { shift = shift_step sc k.shift })) (rw pressed refl)
  | inr released ↦
      lookup-character normal sc k normal_agrees h (rw released refl)
      ∙ ap (λ c. (c, record k { shift = shift_step sc k.shift })) (rw released refl)
]

-- Every element is a byte.
abbrev pub AllBytes : List ℕ → Type 0
AllBytes [] = Unit {0}
AllBytes (sc ∷ scs) = (sc < 256) × AllBytes scs

-- The answers to as many calls of `poll_key`, oldest first, and the keyboard after them.
pub poll_all : ℕ → Keyboard → List (Option ℕ) × Keyboard
poll_all zero k = ([], k)
poll_all (suc n) k =
    let first = poll_key k in let rest = poll_all n first.1 in (first.0 ∷ rest.0, rest.1)

-- The characters of the scancodes, when shift is as `b` says before the first.
unfoldable pub characters : List ℕ → Bool → List (Option ℕ)
characters [] b = []
characters (sc ∷ scs) b = character sc b ∷ characters scs (shift_step sc b)

pub shift_after : List ℕ → Bool → Bool
shift_after [] b = b
shift_after (sc ∷ scs) b = shift_after scs (shift_step sc b)

-- The bytes of the ring from place `i` on.
unfoldable pub Holds : (m : Memory) (i : ℕ) → List ℕ → Type 0
Holds m i [] = Unit {0}
Holds m i (sc ∷ scs) = (read8 m (kbd_data + i) ≡ sc) × Holds m ((i + 1) % 256) scs

-- The scancodes that wait: in the ring with interrupts, at the data port without.
unfoldable pub IsWaiting : Keyboard → List ℕ → Type 0
IsWaiting k scs =
    ((k.available ≡ true)
      × (read32 k.memory kbd_tail < 256)
      × (length scs < 256)
      × (read32 k.memory kbd_head ≡ (read32 k.memory kbd_tail + length scs) % 256)
      × Holds k.memory (read32 k.memory kbd_tail) scs)
    ⊎ ((k.available ≡ false) × (k.port ≡ scs))

Holds-write :
    (m : Memory) (v i : ℕ) (scs : List ℕ) → Holds m i scs → Holds (write32 m kbd_tail v) i scs
unfolding Holds
Holds-write m v i [] held = tt
Holds-write m v i (sc ∷ scs) (here, held) = (
  read8-write32_outside m kbd_tail v (kbd_data + i) (omega arith) ∙ here,
  Holds-write m v ((i + 1) % 256) scs held,
)

poll_scancode-next :
    (m : Memory) (sc : ℕ)
    → (read32 m kbd_head == read32 m kbd_tail) ≡ false
    → read8 m (kbd_data + read32 m kbd_tail) ≡ sc
    → poll_scancode m ≡ (some sc, write32 m kbd_tail ((read32 m kbd_tail + 1) % 256))
unfolding poll_scancode
poll_scancode-next m sc some_left here = rw (some_left, here) refl

poll_scancode-empty :
    (m : Memory) → (read32 m kbd_head == read32 m kbd_tail) ≡ true → poll_scancode m ≡ (none, m)
unfolding poll_scancode
poll_scancode-empty m empty = rw empty refl

module _ (k : Keyboard) where
  from_ring :
      (next : Option ℕ × Memory)
      → k.available ≡ true
      → poll_scancode k.memory ≡ next
      → poll_key k ≡ decode_polled next.0 (record k { memory = next.1 })
  unfolding poll_key
  from_ring next interrupts polled =
      ap
        (λ b.
          if b
          then decode_polled (poll_scancode k.memory).0
              (record k { memory = (poll_scancode k.memory).1 })
          else elim k.port [ [] ↦ (none, k) | sc ∷ rest ↦ decode sc (record k { port = rest }) ])
        interrupts
      ∙ ap (λ p. decode_polled p.0 (record k { memory = p.1 })) polled

  from_port :
      (scs : List ℕ)
      → k.available ≡ false
      → k.port ≡ scs
      → poll_key k ≡ elim scs [ [] ↦ (none, k) | sc ∷ rest ↦ decode sc (record k { port = rest }) ]
  unfolding poll_key
  from_port scs polling waits =
      ap
        (λ b.
          if b
          then decode_polled (poll_scancode k.memory).0
              (record k { memory = (poll_scancode k.memory).1 })
          else elim k.port [ [] ↦ (none, k) | sc ∷ rest ↦ decode sc (record k { port = rest }) ])
        polling
      ∙ ap (λ port. elim port [ [] ↦ (none, k) | sc ∷ rest ↦ decode sc (record k { port = rest }) ])
          waits

-- A poll takes the oldest byte, and decodes it.
IsTaken : (sc : ℕ) (scs : List ℕ) → Keyboard → Type 0
IsTaken sc scs k =
    (k' : Keyboard) × (poll_key k ≡ (character sc k.shift, k'))
    × (k'.shift ≡ shift_step sc k.shift)
    × IsWaiting k' scs

poll_key-IsTaken :
    (sc : ℕ) (scs : List ℕ) (k : Keyboard) → sc < 256 → IsWaiting k (sc ∷ scs) → IsTaken sc scs k
unfolding IsTaken IsWaiting Holds
poll_key-IsTaken sc scs k h (inl (interrupts, at, few, head, held)) =
    let tail = read32 k.memory kbd_tail in
    let after = write32 k.memory kbd_tail ((tail + 1) % 256) in
    let some_left : (read32 k.memory kbd_head == tail) ≡ false = ground arith in
    let new_tail : read32 after kbd_tail ≡ (tail + 1) % 256 =
      read32-write32_same k.memory kbd_tail ((tail + 1) % 256) ∙ omega arith in
    let same_head : read32 after kbd_head ≡ read32 k.memory kbd_head =
      read32-write32_outside k.memory kbd_tail ((tail + 1) % 256) kbd_head (omega arith) in
    (
      record k { memory = after; shift = shift_step sc k.shift },
      from_ring k _ interrupts (poll_scancode-next k.memory sc some_left held.0)
          ∙ decode-character sc (record k { memory = after }) h,
      refl,
      inl (
        interrupts,
        omega arith,
        omega arith,
        omega arith,
        rw new_tail (Holds-write k.memory _ ((tail + 1) % 256) scs held.1),
      ),
    )
poll_key-IsTaken sc scs k h (inr (polling, waits)) = (
  record k { port = scs; shift = shift_step sc k.shift },
  from_port k (sc ∷ scs) polling waits ∙ decode-character sc (record k { port = scs }) h,
  refl,
  inr (polling, refl),
)

poll_key-empty : (k : Keyboard) → IsWaiting k [] → poll_key k ≡ (none, k)
unfolding IsWaiting
poll_key-empty k (inl (interrupts, at, few, head, held)) =
    let empty : (read32 k.memory kbd_head == read32 k.memory kbd_tail) ≡ true = ground arith in
    from_ring k _ interrupts (poll_scancode-empty k.memory empty)
poll_key-empty k (inr (polling, waits)) = from_port k [] polling waits

-- The bytes that wait, in the ring or, without interrupts, at the data port, are all answered by as
-- many polls, if no more arrive meanwhile: once and in order, each with the character of its
-- scancode in the table that the last shift event before it selects, and with none for a release
-- or a key without a character. The shift key is as these bytes leave it, and a further poll
-- answers none and changes nothing.
pub poll_all-characters :
    (scs : List ℕ) (k : Keyboard)
    → AllBytes scs
    → IsWaiting k scs
    → ((poll_all (length scs) k).0 ≡ characters scs k.shift)
      × ((poll_all (length scs) k).1.shift ≡ shift_after scs k.shift)
      × (poll_key (poll_all (length scs) k).1 ≡ (none, (poll_all (length scs) k).1))
unfolding poll_all characters shift_after IsTaken
poll_all-characters [] k all waits = (refl, refl, poll_key-empty k waits)
poll_all-characters (sc ∷ scs) k (h, all) waits =
    let (k', poll, shift, waits') = poll_key-IsTaken sc scs k h waits in
    let (answers, last, more) = poll_all-characters scs k' all waits' in
    (
      ap (λ p. p.0 ∷ (poll_all (length scs) p.1).0) poll
          ∙ ap (λ rest. character sc k.shift ∷ rest) (answers ∙ ap (characters scs) shift),
      ap (λ p. (poll_all (length scs) p.1).1.shift) poll ∙ last ∙ ap (shift_after scs) shift,
      subst (λ p. poll_key (poll_all (length scs) p.1).1 ≡ (none, (poll_all (length scs) p.1).1))
          (sym poll) more,
    )
