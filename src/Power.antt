-- ===== src/Power.antt =====
-- app/src/main/jni/rtlsdrdevice.c, the part taken over from rtl_power: a spectrum recorder that
-- hops over a frequency range, integrates the power of each bin and writes it as CSV.
pub mod Buffer
pub mod Csv
pub mod Examples
pub mod Fft
pub mod Filter
pub mod Range
pub mod Control
pub mod Recording
pub mod Scan
pub mod Tune
pub mod Window
