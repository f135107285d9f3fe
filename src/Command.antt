-- ===== src/Command.antt =====
-- cmd/go-away/main.go: the options that it makes settings of, and the loading and reloading of a
-- policy into the server that runs.
pub mod Options
pub mod Reload
