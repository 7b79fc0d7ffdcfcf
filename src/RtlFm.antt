-- ===== src/RtlFm.antt =====
-- rtl-sdr/src/rtl_fm.c: the demodulator of narrow band FM.
pub mod Input
pub mod Demod
pub mod Squelch
pub mod Audio
pub mod Stream
pub mod Sums
pub mod Fir
pub mod Turns
pub mod Angle
pub mod Resample
pub mod Deviation
mod Tests
