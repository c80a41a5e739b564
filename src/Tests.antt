-- ===== src/Tests.antt =====
-- The theorems at concrete inputs, and runs of the code.
pub mod Sample
pub mod KeTests
pub mod DriversTests
pub mod Win32Tests
pub mod ExTests
pub mod MmTests
pub mod LookasideTests
pub mod RtlTests
pub mod CmTests
pub mod IoTests
pub mod PsTests
pub mod ObTests
pub mod ExportTests
pub mod StartIoTests
pub mod VirtualMemoryTests
