-- ===== src/R82xx.antt =====
-- rtl-sdr/src/tuner_r82xx.c: the driver of the Rafael Micro R820T and R828D tuners.
pub mod Types
pub mod Shadow
pub mod Mux
pub mod Pll
pub mod Sysfreq
pub mod Standard
pub mod Gain
pub mod Tune
pub mod Sync
mod Tests
