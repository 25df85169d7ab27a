-- ===== src/HttpsServer.antt =====
-- httpserver/https_server.cpp: the requests of clients and of other nodes over https.
pub mod Onion
pub mod Signed
pub mod Address
pub mod Calls
