-- ===== src/Mirror.antt =====
-- The C program: util.c, http.c, server.c and client.c.
pub mod Util
pub mod Http
pub mod Main
pub mod Response
pub mod Sender
pub mod Server
pub mod Tests
