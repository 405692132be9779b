-- ===== src/Whatsapp/Server.antt =====
-- ex4/whatsappServer.cpp and ex4/whatsappServer.h: the server's tables and the handlers of requests.
pub mod State
pub mod Consistent
pub mod Changes
pub mod Requests
pub mod Delivery
pub mod Leaving
pub mod Founding
pub mod Main
pub mod Start
pub mod Rounds
pub mod Greeting
pub mod Shutdown
pub mod Answers
pub mod Readers
pub mod Messages
pub mod Listing
pub mod Printed
pub mod Journal
mod Chat
mod Examples
mod Scenarios
mod Dialogues
