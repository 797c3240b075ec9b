-- ===== src/Http.antt =====
-- src/http and src/HttpServer.cpp: the commands that HTTP requests stand for, the router, the JSON of
-- its responses, and a session.
pub mod Adapter
pub mod Json
pub mod Target
pub mod Router
pub mod Session
