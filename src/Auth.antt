-- ===== src/Auth.antt =====
-- internal/gateway/core.go: bearer tokens, their scopes, the server policy and the domains table;
-- internal/gateway/http.go: the two authentication wrappers.
-- A table of the SQLite database is the list of its rows, and each SQL statement of the source is a
-- function on that list.
pub mod Scopes
pub mod Tokens
pub mod Policy
pub mod Wrappers
mod Tests
