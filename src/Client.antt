-- ===== src/Client.antt =====
-- src/thruk_mcp/client.py: the HTTP client's own logic, over a transport that answers.
pub mod Pages
pub mod Requests
pub mod Fallback
pub mod Background
mod Tests
