-- ===== src/Whatsapp/Client.antt =====
-- ex4/whatsappClient.cpp: a client of the chat server.
pub mod Commands
pub mod Checked
pub mod Session
pub mod Main
pub mod Causes
pub mod Ending
