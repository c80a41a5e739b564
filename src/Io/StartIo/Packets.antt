-- ===== src/Io/StartIo/Packets.antt =====
-- system32/ntos/io/start-io.js: IoStartPacket for a device that has a current IRP.
use windows_10_js.Prelude.{
  ℕ, suc, ◌+◌, ◌-◌, ◌≡◌, ◌≢◌, ◌≤◌, ◌<◌, refl, ap, subst, inl, inr, false, some, List, [], ◌∷◌, ◌++◌,
  length, ◌==◌, ltb, Bool-cases, arith,
}
use windows_10_js.Hal.Memory.{Memory, read64, write64}
use windows_10_js.Hal.Memory.Cells.{Apart, read64-write64_outside}
use windows_10_js.NtAbi.DeviceObject
use windows_10_js.Win32.Rtl.Interlocked.Ring.{Linked, IsRing, AllApart, AreApart, Kept, read64-lt}
use windows_10_js.Win32.Rtl.Interlocked.Unlinking.{Linked-keep}
use windows_10_js.Io.StartIo.{
  list_head, list_in_irp, key_in_irp, key_at, insert_before, insert_packet, io_start_packet,
  queue_ensure_initialized, packet_key,
}
use windows_10_js.Io.StartIo.Queueing.{
  before, behind, before-behind, first_or, find_place-first, insert_before-IsRing,
}

-- The links and the key of the IRP overlap none of the entries', which are links of IRPs too.
abbrev pub AllClear : (irp : ℕ) → List ℕ → Type 0
AllClear irp [] = Unit {0}
AllClear irp (x ∷ xs) = ((list_in_irp ≤ x) × Apart (irp + list_in_irp) 24 x 24) × AllClear irp xs

AllClear-append :
    (irp : ℕ) (xs ys : List ℕ) → AllClear irp xs → AllClear irp ys → AllClear irp (xs ++ ys)
AllClear-append irp [] ys h k = k
AllClear-append irp (x ∷ xs) ys (h, hs) k = (h, AllClear-append irp xs ys hs k)

AllClear-AllApart : (irp : ℕ) (xs : List ℕ) → AllClear irp xs → AllApart (irp + list_in_irp) xs
AllClear-AllApart irp [] h = tt
AllClear-AllApart irp (x ∷ xs) ((_, h), hs) = (omega arith, AllClear-AllApart irp xs hs)

module _ (m : Memory) (irp v : ℕ) where
  -- The stored key leaves the links and the keys of the others.
  Kept-key :
      (p : ℕ) (xs : List ℕ)
      → Apart (irp + list_in_irp) 24 p 24
      → AllClear irp xs
      → Kept m (write64 m (irp + key_in_irp) v) p xs
  unfolding Kept
  Kept-key p [] here clear = tt
  Kept-key p (x ∷ xs) here ((_, next), clear) = (
    read64-write64_outside m (irp + key_in_irp) v p (omega arith),
    read64-write64_outside m (irp + key_in_irp) v (x + 8) (omega arith),
    Kept-key x xs next clear,
  )

  key_at-kept :
      (x : ℕ)
      → list_in_irp ≤ x
      → Apart (irp + list_in_irp) 24 x 24
      → key_at (write64 m (irp + key_in_irp) v) x ≡ key_at m x
  unfolding key_at
  key_at-kept x from apart =
      read64-write64_outside m (irp + key_in_irp) v (x - list_in_irp + key_in_irp) (omega arith)

  place-kept :
      (key : ℕ) (xs : List ℕ)
      → AllClear irp xs
      → (before (key_at (write64 m (irp + key_in_irp) v)) key xs ≡ before (key_at m) key xs)
        × (behind (key_at (write64 m (irp + key_in_irp) v)) key xs ≡ behind (key_at m) key xs)
  unfolding before behind
  place-kept key [] clear = (refl, refl)
  place-kept key (x ∷ xs) ((from, apart), clear) =
      let same = key_at-kept x from apart in
      let (fronts, rests) = place-kept key xs clear in
      elim (Bool-cases (ltb key (key_at m x))) [
        | inl larger ↦ rw (same, larger) (refl, refl)
        | inr not_larger ↦ rw (same, not_larger) (ap (λ rest. x ∷ rest) fronts, rests)
      ]

-- What a link leads to fits in 64 bits.
first-small :
    (m : Memory) (keys : ℕ → ℕ) (key head p : ℕ) (xs : List ℕ)
    → Linked m p xs head
    → head < 0x1_0000_0000_0000_0000
    → first_or head (behind keys key xs) < 0x1_0000_0000_0000_0000
unfolding first_or behind Linked
first-small m keys key head p [] linked small = small
first-small m keys key head p (x ∷ xs) (next, prev, rest) small =
    elim (Bool-cases (ltb key (keys x))) [
      | inl larger ↦ rw larger (subst (λ v. v < 0x1_0000_0000_0000_0000) next (read64-lt m p))
      | inr not_larger ↦ rw not_larger (first-small m keys key head x xs rest small)
    ]

insert_packet-IsRing :
    (m : Memory) (device irp key : ℕ) (xs : List ℕ)
    → IsRing m (list_head device) xs
    → AreApart (list_head device ∷ xs)
    → AllApart (irp + list_in_irp) (list_head device ∷ xs)
    → list_head device < 0x1_0000_0000_0000_0000
    → irp + list_in_irp < 0x1_0000_0000_0000_0000
    → (m' : Memory) × (insert_packet device irp key (suc (length xs)) m ≡ some m')
      × IsRing m'
          (list_head device)
          (before (key_at m) key xs ++ (irp + list_in_irp) ∷ behind (key_at m) key xs)
unfolding insert_packet
insert_packet-IsRing m device irp key xs ring apart fresh small_head small =
    let head = list_head device in
    let parts = before-behind (key_at m) key xs in
    let cursor = first_or head (behind (key_at m) key xs) in
    let found = find_place-first m head key head xs ring apart.0 in
    (
      insert_before cursor (irp + list_in_irp) m,
      rw (found, insert_packet) refl,
      insert_before-IsRing m head (irp + list_in_irp) (before (key_at m) key xs)
          (behind (key_at m) key xs) (subst (λ l. IsRing m head l) parts ring)
          (subst (λ l. AreApart (head ∷ l)) parts apart)
          (subst (λ l. AllApart (irp + list_in_irp) (head ∷ l)) parts fresh) small_head small
          (first-small m (key_at m) key head head xs ring small_head),
    )

nonzero-first :
    (m : Memory) (device irp : ℕ) (xs : List ℕ)
    → IsRing m (list_head device) xs
    → AllClear irp xs
    → (read64 m (list_head device) == 0) ≡ false
unfolding Linked
nonzero-first m device irp [] (next, prev) clear = ground (arith, next)
nonzero-first m device irp (x ∷ xs) (next, prev, rest) ((from, apart), clear) =
    ground (arith, next, from)

module _ (exec : (routine device irp : ℕ) → Memory → Memory) where
  -- IoStartPacket, for a device with a current IRP and a ring of waiting ones: with a round of the
  -- search for each of them and one more, the new IRP is linked into the ring behind those whose key
  -- is not larger, up to the first with a larger key, in front of that one and the others, if its
  -- links and its key overlap neither theirs nor the device, and the entries do not overlap.
  pub io_start_packet-IsRing :
      (m : Memory) (device irp sort_key : ℕ) (xs : List ℕ)
      → IsRing m (list_head device) xs
      → AreApart (list_head device ∷ xs)
      → AllClear irp xs
      → Apart (irp + list_in_irp) 24 device 0x90
      → read64 m (device + DeviceObject.current_irp) ≢ 0
      → device + 0x90 ≤ 0x1_0000_0000_0000_0000
      → irp + list_in_irp < 0x1_0000_0000_0000_0000
      → (m' : Memory) × (io_start_packet exec device irp sort_key (suc (length xs)) m ≡ some m')
        × IsRing m' (list_head device) (
            before (key_at m) (packet_key sort_key m) xs
            ++ (irp + list_in_irp) ∷ behind (key_at m) (packet_key sort_key m) xs)
  unfolding io_start_packet queue_ensure_initialized
  io_start_packet-IsRing m device irp sort_key xs ring apart clear outside busy small_device small =
      let head = list_head device in
      let key = packet_key sort_key m in
      let m1 = write64 m (irp + key_in_irp) key in
      let made = nonzero-first m device irp xs ring clear in
      let head_clear : Apart (irp + list_in_irp) 24 head 24 = omega arith in
      let ring1 = Linked-keep m m1 head xs head ring (
        Kept-key m irp key head (xs ++ head ∷ []) head_clear
          (AllClear-append irp xs (head ∷ []) clear ((omega arith, head_clear), tt))) in
      let current : (read64 m1 (device + DeviceObject.current_irp) == 0) ≡ false = ground (
        arith,
        busy,
        read64-write64_outside m (irp + key_in_irp) key (device + DeviceObject.current_irp),
      ) in
      let (m', ends, ring') =
        insert_packet-IsRing m1 device irp key xs ring1 apart
          (omega arith, AllClear-AllApart irp xs clear) (omega arith) small in
      let (fronts, rests) = place-kept m irp key key xs clear in
      (
        m',
        rw (made, current) ends,
        subst (λ l. IsRing m' head (l ++ (irp + list_in_irp) ∷ behind (key_at m) key xs)) fronts
            (subst (λ l. IsRing m' head (before (key_at m1) key xs ++ (irp + list_in_irp) ∷ l))
              rests ring'),
      )
