-- ===== src/Tests/StartIoTests.antt =====
-- IoStartPacket for a device at 0x1000, with a current IRP and one that waits, whose key is 5.
use windows_10_js.Prelude.{◌≡◌, refl, some, [], ◌∷◌, ◌++◌, arith}
use windows_10_js.Hal.Memory.{
  Memory, read8, read16, read32, read64, write8, write16, write32, write64,
}
use windows_10_js.Win32.Rtl.Interlocked.Ring.{Linked, IsRing}
use windows_10_js.Io.StartIo.{io_start_packet, key_at, packet_key}
use windows_10_js.Io.StartIo.Queueing.{before, behind}
use windows_10_js.Io.StartIo.Packets.{io_start_packet-IsRing}
use windows_10_js.Tests.Sample.{zeros}

abbrev linked_head : Memory
linked_head = write64 (write64 (write64 zeros 0x1020 0x5000) 0x1078 0x2070) 0x1080 0x2070

abbrev one_waiting : Memory
one_waiting =
    write32 (write64 (write64 (write64 linked_head 0x2070 0x1078) 0x2078 0x1078) 0x2080 5) 0x4000 3

one_waiting-IsRing : IsRing one_waiting 0x1078 (0x2070 ∷ [])
unfolding Linked read64 read32 read16 read8 write64 write32 write16 write8
one_waiting-IsRing = (refl, refl, (refl, refl))

current_irp_there : read64 one_waiting 0x1020 ≡ 0x5000
unfolding read64 read32 read16 read8 write64 write32 write16 write8
current_irp_there = refl

io_start_packet-IsRing_example :
    (m' : Memory) × (io_start_packet (λ routine device irp m. m) 0x1000 0x3000 0x4000 2 one_waiting
      ≡ some m')
    × IsRing m' 0x1078 (
        before (key_at one_waiting) (packet_key 0x4000 one_waiting) (0x2070 ∷ [])
        ++ 0x3070 ∷ behind (key_at one_waiting) (packet_key 0x4000 one_waiting) (0x2070 ∷ []))
io_start_packet-IsRing_example =
    io_start_packet-IsRing (λ routine device irp m. m) one_waiting 0x1000 0x3000 0x4000
      (0x2070 ∷ []) one_waiting-IsRing ((omega arith, tt), (tt, tt))
      ((omega arith, omega arith), tt) (omega arith) (omega (arith, current_irp_there))
      (omega arith) (omega arith)

-- The smaller key goes first.
smaller_first :
    before (key_at one_waiting) (packet_key 0x4000 one_waiting) (0x2070 ∷ [])
      ++ 0x3070 ∷ behind (key_at one_waiting) (packet_key 0x4000 one_waiting) (0x2070 ∷ [])
    ≡ 0x3070 ∷ 0x2070 ∷ []
unfolding before behind key_at packet_key read64 read32 read16 read8 write64 write32 write16 write8
smaller_first = refl
