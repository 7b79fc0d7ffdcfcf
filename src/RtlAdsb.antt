-- ===== src/RtlAdsb.antt =====
-- rtl-sdr/src/rtl_adsb.c: from the samples of the receiver to ADS-B frames.
pub mod Manchester
pub mod Ends
pub mod Messages
pub mod Samples
mod Tests
