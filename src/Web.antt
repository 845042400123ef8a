-- ===== src/Web.antt =====
-- The web interface of the program, api/web.
pub mod Responses
pub mod Mapper
