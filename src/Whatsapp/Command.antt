-- ===== src/Whatsapp/Command.antt =====
-- ex4/whatsappio.cpp, `parseCommand`, which the client and the server call on a typed line.
pub mod Parse
pub mod Printed
pub mod Created
