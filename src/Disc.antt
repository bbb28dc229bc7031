-- ===== src/Disc.antt =====
-- src/libsacd/scarletbook_read.c, scarletbook.h: frames of audio in the sectors of a disc.
pub mod Sector
pub mod Frames
