-- ===== src/Whatsapp/Framing.antt =====
-- ex4/whatsappCommon.h: messages as frames of a fixed size.
pub mod Wire
pub mod Sending
pub mod Receiving
pub mod Fits
