-- ===== src/Rf.antt =====
-- pi/si5351.py, pi/pe4302.py, pi/gpclk.py: the drivers below the signal generator. Frequencies are
-- whole numbers of hertz; attenuations are thousandths of a decibel.
pub mod Si5351
pub mod Attenuator
pub mod Clock
pub mod Generator
pub mod Morse
pub mod Gpio
