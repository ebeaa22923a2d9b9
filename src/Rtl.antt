-- ===== src/Rtl.antt =====
-- The run-time library, src/std/rtl.cpp.
pub mod Text
pub mod Number
pub mod Compare
pub mod Convert
pub mod Bitmap
pub mod Time
