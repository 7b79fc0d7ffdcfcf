-- ===== src/Lib.antt =====
-- rtl_tcp_pi: a receiver for RTL2832 based DVB-T dongles, built on a copy of rtl-sdr.
--
-- The program has a library, rtl-sdr/src/librtlsdr.c, which talks to the dongle by USB control
-- transfers; drivers of the tuner chips, rtl-sdr/src/tuner_*.c, which reach their chip by I2C messages
-- through the library; and tools that take the samples, among them rtl-sdr/src/rtl_tcp.c (a
-- detector of signals), rtl-sdr/src/rtl_adsb.c (a decoder of aircraft messages), rtl-sdr/src/rtl_fm.c
-- (a demodulator) and rtl-sdr/src/rtl_power.c (a spectrum logger).
--
-- Which file models what:
--   Usb                 libusb_control_transfer. It is not part of the repository: the record `Usb` is a
--                       parameter that says how the device answers after the transfers so far, and
--                       the list of transfers with their answers is the state `Bus`.
--   Librtlsdr.Access    librtlsdr.c: rtlsdr_read_array to rtlsdr_set_i2c_repeater
--   Librtlsdr.Fir       librtlsdr.c: rtlsdr_set_fir
--   Librtlsdr.Gains     librtlsdr.c: rtlsdr_get_tuner_gains
--   Librtlsdr.Device, Librtlsdr.Demod, Librtlsdr.Control, Librtlsdr.Baseband
--                       librtlsdr.c: struct rtlsdr_dev and rtlsdr_tuner_iface_t, and the functions that set the
--                       state of a device, from rtlsdr_init_baseband to rtlsdr_set_offset_tuning
--   Librtlsdr.Tuners, Librtlsdr.E4000
--                       librtlsdr.c: the entries of `tuners`
--   Librtlsdr.E4000.Gains, Librtlsdr.E4000.Programs
--                       e4000_set_gain against the advertised gains
--   Librtlsdr.Dongles   librtlsdr.c: the table of known devices, rtlsdr_get_device_count,
--                       rtlsdr_get_device_name, and the choice of a device in rtlsdr_open
--   Librtlsdr.Open      librtlsdr.c: rtlsdr_open from the default clock on, with the probe of the tuners;
--                       Librtlsdr.Probe has which tuner it finds
--   Librtlsdr.Sound, Librtlsdr.R820t, Librtlsdr.Api, Librtlsdr.Clock
--                       what a tuner has to keep, sequences of calls of the library, and the clock
--                       that they leave the driver of the tuner with
--   Librtlsdr.Rate, Librtlsdr.Demod.Bytes
--                       the numbers of rtlsdr_set_sample_rate, rtlsdr_set_if_freq and
--                       rtlsdr_set_sample_freq_correction
--   Librtlsdr.Eeprom    librtlsdr.c: rtlsdr_write_eeprom, rtlsdr_read_eeprom
--   Librtlsdr.Async     librtlsdr.c: rtlsdr_read_async, rtlsdr_cancel_async, _libusb_callback
--   R82xx.Types         rtl-sdr/include/tuner_r82xx.h; `Priv` is struct r82xx_priv
--   R82xx.Shadow        tuner_r82xx.c: r82xx_write, r82xx_read, the shadow registers
--   R82xx.Mux, R82xx.Pll, R82xx.Sysfreq, R82xx.Standard, R82xx.Gain, R82xx.Tune
--                       tuner_r82xx.c: r82xx_set_mux, r82xx_set_pll, r82xx_sysfreq_sel,
--                       r82xx_set_tv_standard, r82xx_set_gain, and the functions above them
--   R82xx.Sync          the registers of the tuner as its traffic has set them, against the shadow
--                       registers of the driver
--   R82xx.Sync.Clock    what the calls of the driver do to its configuration
--   Fc0012, Fc0012.Pll  rtl-sdr/src/tuner_fc0012.c
--   Fc0013, Fc0013.Pll  rtl-sdr/src/tuner_fc0013.c
--   Fc2580, Fc2580.Pll, Fc2580.Registers
--                       rtl-sdr/src/tuner_fc2580.c
--   E4k                 rtl-sdr/src/tuner_e4k.c: E4k.Types (tuner_e4k.h), E4k.Registers, E4k.Filters,
--                       E4k.Pll and E4k.Gain are the driver, and the function e4k_init is in E4k itself
--   E4k.Chip, E4k.Fields, E4k.Programmed
--                       a tuner that keeps what is written to it, the fields of its registers, and
--                       the registers after e4k_tune_freq
--   E4k.Accuracy, E4k.Bandwidth, E4k.Nearest, E4k.Tuned, E4k.Faults
--                       the PLL, the IF filters, the search for a filter, tuning, its errors
--   RtlFm.Input, RtlFm.Demod, RtlFm.Audio, RtlFm.Squelch
--                       rtl_fm.c: rotate_90, low_pass and low_pass_fir; the discriminant and the demodulators;
--                       low_pass_real, deemph_filter and dc_block_filter; mad and post_squelch
--   RtlFm.Stream, RtlFm.Sums, RtlFm.Fir, RtlFm.Turns, RtlFm.Angle, RtlFm.Resample, RtlFm.Deviation
--                       low_pass over a sequence of buffers and against sums of blocks, and what
--                       the other functions of rtl_fm.c compute
--   RtlPower            rtl_power.c: FIX_MPY, nearest_gain, remove_dc
--   RtlEeprom           rtl_eeprom.c: the configuration block; RtlEeprom.Written has it in the EEPROM
--   RtlAdsb             rtl_adsb.c: magnitute, single_manchester, preamble, manchester, messages
--   RtlTcp              rtl_tcp.c: rtlsdr_callback and the queue of buffers
--   Common, State, Driver
--                       shared lists, integers and bits; state passing; the calling convention
--                       `rc = f(...); if (rc < 0) return rc;`, whose state stays updated on an error
--
-- A function keeps its name. A return value below 0 is `err`, and `fault` stands for a call that
-- does not return. Unsigned arithmetic has its `% 2 ^ w` written out. The bytes of an uninitialised
-- local array are a part of the parameter `Usb`.
--
-- The functions of librtlsdr.c that take a device are in the same convention, with the return value,
-- negative or not, as the value: `fault` is the only failure. The device is there, so that
-- the tests for a null pointer are left out. The correction of a clock by a number of ppm is
-- computed in floating point: it is a parameter, `PpmCorr`. The ratios with 2^22 are computed in
-- floating point too, and their integer parts are those of the exact quotients.
--
-- The event loop of libusb is not part of the repository: what it does in each turn of the loop in
-- rtlsdr_read_async is an argument, a list of rounds, and the loop is still running when the list
-- is used up. An EEPROM is a parameter likewise, as a device on the bus.
--
-- Other loops run on fuel. r82xx_write sends one message at least, and one for each byte at most. The
-- divider loop of r82xx_set_pll doubles a byte from 2 on, and the loop of the fraction doubles
-- a 16-bit number from 2 on, so that 7 and 17 rounds are all there are. The loops of manchester
-- and messages get the length of the buffer.
--
-- Threads: the two sides of the queue hold ll_mutex while they work on it, so that the model has
-- their operations one after another.
--
-- The samples of rtl_fm.c and rtl_power.c are whole numbers; they are cut to 16 bits where the source
-- does it, and the complex product and fast_atan2 wrap around at 32 bits. The sums and products of the
-- other filters stay inside an `int` for the lengths and weights of the program.
--
-- Not modelled: in librtlsdr.c the opening of the USB device, the closing
-- and the USB strings, which are calls of libusb; in rtl_power.c the FFT, whose table comes from the
-- mathematical library, and the planning of the scan; in rtl_fm.c the coefficients of the FIR, the CIC filters, what uses
-- floating point, and the threads; the option parsing and
-- printing of the tools, and the parts of rtl_tcp.c that call fftw and bcm2835; the copy of getopt.
pub mod Common
pub mod State
pub mod Driver
pub mod Usb
pub mod Librtlsdr
pub mod R82xx
pub mod Fc0012
pub mod Fc0013
pub mod Fc2580
pub mod E4k
pub mod RtlFm
pub mod RtlPower
pub mod RtlAdsb
pub mod RtlTcp
pub mod RtlEeprom
