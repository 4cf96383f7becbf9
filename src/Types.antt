-- ===== src/Types.antt =====
-- lib/src/lib.rs and the enumerations of lib/src/memory.rs and lib/src/ioctl.rs: queue types,
-- memory types, fields, colour descriptions, pixel formats and formats.
pub mod Enumn
pub mod QueueTypes
pub mod Colors
pub mod Formats
