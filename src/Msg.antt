-- ===== src/Msg.antt =====
-- msg.cpp: what the server does with a received message, one module for each kind of peer.
pub mod Strip
pub mod Slave
pub mod Master
pub mod Client
