-- ===== src/Win32/Ex/Slist/Stack.antt =====
-- The entries of an SLIST_HEADER are a stack.
use windows_10_js.Prelude.{
  ℕ, suc, ◌+◌, ◌%◌, ◌/◌, ◌≤◌, ◌≡◌, ◌≢◌, ◌∙◌, ◌<◌, refl, ap, List, [], ◌∷◌, length, ◌==◌, true,
  false, arith,
}
use windows_10_js.Hal.Memory.{Memory, read16, read64, write16, write32, write64}
use windows_10_js.Hal.Memory.Cells.{
  Apart, read32-lt, read32-write16_outside, read16-write16_same, read16-write16_outside,
  read16-write32_outside, read64-write64_same, read64-write64_outside,
}
use windows_10_js.Win32.Ex.Slist.{slist_push, slist_pop, slist_flush}

-- From the entry `p` on, the entries are `bs`.
unfoldable pub Chain : Memory → ℕ → List ℕ → Type 0
Chain m p [] = p ≡ 0
Chain m p (b ∷ bs) = (p ≡ b) × (b ≢ 0) × Chain m (read64 m b) bs

-- The 8 bytes of an entry, or of a field, do not meet those of the others.
abbrev pub AllApart : (a n : ℕ) → List ℕ → Type 0
AllApart a n [] = Unit {0}
AllApart a n (b ∷ bs) = Apart a n b 8 × AllApart a n bs

abbrev pub AreApart : List ℕ → Type 0
AreApart [] = Unit {0}
AreApart (b ∷ bs) = AllApart b 8 bs × AreApart bs

-- The entries lie below 4 GB.
abbrev pub AllLow : List ℕ → Type 0
AllLow [] = Unit {0}
AllLow (b ∷ bs) = (b + 8 ≤ 0x1_0000_0000) × AllLow bs

-- The header's entries are `bs`, apart from the header and from one another, its depth is their
-- number modulo 2 ^ 16, and all lie below 4 GB, as addresses of 32 bits.
pub record IsStack (head : ℕ) (m : Memory) (bs : List ℕ) : Type 0 where
  pub entries : Chain m (read64 m head) bs
  pub depth : read16 m (head + 8) ≡ length bs % 65536
  pub clear : AllApart head 16 bs
  pub apart : AreApart bs
  pub low : head + 16 ≤ 0x1_0000_0000
  pub all_low : AllLow bs

read64-lt : (m : Memory) (a : ℕ) → read64 m a < 0x1_0000_0000_0000_0000
unfolding read64
read64-lt m a = let low = read32-lt m a in let high = read32-lt m (a + 4) in omega arith

module _ (m : Memory) (a v : ℕ) where
  read64-write16_outside : (b : ℕ) → Apart a 2 b 8 → read64 (write16 m a v) b ≡ read64 m b
  unfolding read64
  read64-write16_outside b h =
      ground (arith, read32-write16_outside m a v b, read32-write16_outside m a v (b + 4))

  read16-write64_outside : (b : ℕ) → Apart a 8 b 2 → read16 (write64 m a v) b ≡ read16 m b
  unfolding write64
  read16-write64_outside b h = ground (
    arith,
    read16-write32_outside m a v b,
    read16-write32_outside (write32 m a v) (a + 4) (v / 0x1_0000_0000) b,
  )

-- The entries' links are read alike from both memories.
Chain-kept :
    (m m' : Memory) (a n p : ℕ) (bs : List ℕ)
    → ((b : ℕ) → Apart a n b 8 → read64 m' b ≡ read64 m b)
    → AllApart a n bs
    → Chain m p bs
    → Chain m' p bs
unfolding Chain
Chain-kept m m' a n p [] keeps apart chain = chain
Chain-kept m m' a n p (b ∷ bs) keeps (here, apart) (at, nonzero, rest) =
    (at, nonzero, rw (keeps b here) (Chain-kept m m' a n (read64 m b) bs keeps apart rest))

AllApart-part :
    (head i n : ℕ) (bs : List ℕ) → i + n ≤ 16 → AllApart head 16 bs → AllApart (head + i) n bs
AllApart-part head i n [] within apart = tt
AllApart-part head i n (b ∷ bs) within (here, apart) =
    (omega arith, AllApart-part head i n bs within apart)

module _ (head : ℕ) (m : Memory) where
  -- What a write of the depth or of the sequence number leaves.
  Chain-count :
      (i v p : ℕ) (bs : List ℕ)
      → i + 2 ≤ 16
      → AllApart head 16 bs
      → Chain m p bs
      → Chain (write16 m (head + i) v) p bs
  Chain-count i v p bs within clear chain =
      Chain-kept m (write16 m (head + i) v) (head + i) 2 p bs
        (λ b h. read64-write16_outside m (head + i) v b h) (AllApart-part head i 2 bs within clear)
        chain

  Chain-first :
      (v p : ℕ) (bs : List ℕ) → AllApart head 16 bs → Chain m p bs → Chain (write64 m head v) p bs
  Chain-first v p bs clear chain =
      Chain-kept m (write64 m head v) head 16 p bs
        (λ b h. read64-write64_outside m head v b (omega arith)) clear chain

-- The first entry, 0 without one.
unfoldable pub top : List ℕ → ℕ
top [] = 0
top (b ∷ bs) = b

pub read64-top : (head : ℕ) (m : Memory) (bs : List ℕ) → IsStack head m bs → read64 m head ≡ top bs
unfolding top Chain
read64-top head m [] s = s.entries
read64-top head m (b ∷ bs) s = s.entries.0

module _ (head : ℕ) (m : Memory) (bs : List ℕ) (s : IsStack head m bs) where
  pub push-IsStack :
      (entry : ℕ)
      → entry ≢ 0
      → entry + 8 ≤ 0x1_0000_0000
      → Apart head 16 entry 8
      → AllApart entry 8 bs
      → IsStack head (slist_push head entry m).1 (entry ∷ bs)
  unfolding slist_push Chain
  push-IsStack entry nonzero small clear apart =
      let m1 = write64 m entry (read64 m head) in
      let m2 = write64 m1 head entry in
      let m3 = write16 m2 (head + 8) (read16 m2 (head + 8) + 1) in
      let m4 = write16 m3 (head + 0xA) (read16 m3 (head + 0xA) + 1) in
      let first : read64 m4 head ≡ entry =
        read64-write16_outside m3 (head + 0xA) _ head (omega arith)
        ∙ read64-write16_outside m2 (head + 8) _ head (omega arith)
        ∙ read64-write64_same m1 head entry (omega arith) in
      let next : read64 m4 entry ≡ read64 m head =
        read64-write16_outside m3 (head + 0xA) _ entry (omega arith)
        ∙ read64-write16_outside m2 (head + 8) _ entry (omega arith)
        ∙ read64-write64_outside m1 head entry entry (omega arith)
        ∙ read64-write64_same m entry (read64 m head) (read64-lt m head) in
      let chain1 =
        Chain-kept m m1 entry 8 (read64 m head) bs
          (λ b h. read64-write64_outside m entry (read64 m head) b h) apart s.entries in
      let chain2 = Chain-first head m1 entry (read64 m head) bs s.clear chain1 in
      let chain3 =
        Chain-count head m2 8 (read16 m2 (head + 8) + 1) (read64 m head) bs (omega arith) s.clear
          chain2 in
      let chain4 =
        Chain-count head m3 0xA (read16 m3 (head + 0xA) + 1) (read64 m head) bs (omega arith)
          s.clear chain3 in
      let count : read16 m2 (head + 8) ≡ length bs % 65536 =
        read16-write64_outside m1 head entry (head + 8) (omega arith)
        ∙ read16-write64_outside m entry (read64 m head) (head + 8) (omega arith)
        ∙ s.depth in
      record {
        entries = (first, nonzero, rw next chain4);
        depth =
            read16-write16_outside m3 (head + 0xA) _ (head + 8) (omega arith)
            ∙ read16-write16_same m2 (head + 8) _
            ∙ omega (arith, count);
        clear = (clear, s.clear);
        apart = (apart, s.apart);
        low = s.low;
        all_low = (small, s.all_low);
      }

  pub flush-IsStack : IsStack head (slist_flush head m).1 []
  unfolding slist_flush Chain
  flush-IsStack = record {
    entries =
        read64-write16_outside (write64 m head 0) (head + 8) 0 head (omega arith)
        ∙ read64-write64_same m head 0 (omega arith);
    depth = read16-write16_same (write64 m head 0) (head + 8) 0;
    clear = tt;
    apart = tt;
    low = s.low;
    all_low = tt;
  }

module _ (head : ℕ) (m : Memory) where
  pub pop_empty : IsStack head m [] → slist_pop head m ≡ (0, m)
  unfolding slist_pop Chain
  pop_empty s = let empty : (read64 m head == 0) ≡ true = ground (arith, s.entries) in rw empty refl

  pub pop-IsStack :
      (b : ℕ) (bs : List ℕ)
      → IsStack head m (b ∷ bs)
      → ((slist_pop head m).0 ≡ b) × IsStack head (slist_pop head m).1 bs
  unfolding slist_pop Chain
  pop-IsStack b bs s =
      let (at, nonzero, chain) = s.entries in
      let some_first : (read64 m head == 0) ≡ false = ground arith in
      let next = read64 m (read64 m head) in
      let m1 = write64 m head next in
      let m2 = write16 m1 (head + 8) (read16 m1 (head + 8) + 0xFFFF) in
      let first : read64 m2 head ≡ read64 m b =
        read64-write16_outside m1 (head + 8) _ head (omega arith)
        ∙ read64-write64_same m head next (read64-lt m (read64 m head))
        ∙ ap (read64 m) at in
      let chain1 = Chain-first head m next (read64 m b) bs s.clear.1 chain in
      let chain2 =
        Chain-count head m1 8 (read16 m1 (head + 8) + 0xFFFF) (read64 m b) bs (omega arith)
          s.clear.1 chain1 in
      let count : read16 m1 (head + 8) ≡ suc (length bs) % 65536 =
        read16-write64_outside m head next (head + 8) (omega arith) ∙ s.depth in
      rw some_first (
        at,
        record {
          entries = rw first chain2;
          depth = read16-write16_same m1 (head + 8) _ ∙ omega (arith, count);
          clear = s.clear.1;
          apart = s.apart.1;
          low = s.low;
          all_low = s.all_low.1;
        },
      )
