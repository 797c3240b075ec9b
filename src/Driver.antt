-- ===== src/Driver.antt =====
-- src/driver: the client of a device, and the mock driver that answers queries.
pub mod MockServer
pub mod Client
