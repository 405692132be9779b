-- ===== src/Whatsapp.antt =====
-- ex4: a chat server and its clients.
pub mod Text
pub mod Framing
pub mod Command
pub mod Names
pub mod Port
pub mod Printing
pub mod Server
pub mod Client
mod Examples
