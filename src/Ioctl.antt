-- ===== src/Ioctl.antt =====
-- lib/src/ioctl.rs and lib/src/ioctl/: the safe counterparts of the V4L2 structures.
pub mod Buffer
pub mod Mplane
pub mod DecoderCmd
pub mod Events
pub mod EncoderCmd
pub mod Input
pub mod EnumFmt
pub mod Controls
