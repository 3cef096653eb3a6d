-- ===== src/Ipc.antt =====
-- Linux_Multi_Server_Ipc/: `Globals` is globals.h, `Messages` how a message goes through shared memory
-- or a socket, `Server` server.cpp and `Client` client.cpp.
pub mod Globals
pub mod Messages
pub mod Client
pub mod Server
pub mod Witnesses
