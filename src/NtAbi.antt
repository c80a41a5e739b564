-- ===== src/NtAbi.antt =====
-- Offsets and constants of system32/win32/nt-abi.js that the modelled modules use.
pub mod DispatcherHeader
pub mod FastMutex
pub mod Kdpc
pub mod Ktimer
pub mod IoWorkitem
pub mod LookasideList
pub mod ControllerObject
pub mod DeviceObject
pub mod Eprocess
pub mod Kthread
pub mod KdeviceQueue
pub mod DriverObject
