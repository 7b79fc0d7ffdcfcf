-- ===== src/Librtlsdr.antt =====
-- rtl-sdr/src/librtlsdr.c: the library that drives the RTL2832 demodulator and its tuner.
pub mod Access
pub mod Gains
pub mod Fir
pub mod Device
pub mod Demod
pub mod Control
pub mod Sound
pub mod Tuners
pub mod Dongles
pub mod Open
pub mod Probe
pub mod E4000
pub mod R820t
pub mod Api
pub mod Rate
pub mod Clock
pub mod Baseband
pub mod Async
pub mod Eeprom
mod Tests
