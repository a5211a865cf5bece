-- ===== src/Http.antt =====
-- dwframe/http: methods and status codes, the maps of headers, requests and responses, how they are
-- printed and parsed, and the session and the server that exchange them. The table of servlets is in
-- Servlet.
pub mod Method
pub mod Status
pub mod Fields
pub mod Request
pub mod Response
pub mod Dump
pub mod Parser
pub mod Session
pub mod Server
