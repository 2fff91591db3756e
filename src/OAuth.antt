-- ===== src/OAuth.antt =====
-- OAuth2 bearer tokens: src/asap/auth/_scope_parse.py, src/asap/auth/scopes.py and
-- src/asap/auth/middleware.py.
pub mod Scopes
pub mod Keys
pub mod Bearer
pub mod Genuine
pub mod Refetch
pub mod Passing
