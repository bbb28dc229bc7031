-- ===== src/Dst.antt =====
-- The DST decoder, src/libdstdec.
pub mod Stream
pub mod Fio
pub mod Arith
pub mod Unpack
pub mod Rice
pub mod Segments
pub mod Coded
pub mod Ptables
pub mod Coefs
pub mod Header
pub mod Mapping
pub mod Filter
pub mod Frame
pub mod Entry
