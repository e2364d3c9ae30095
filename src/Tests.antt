-- ===== src/Tests.antt =====
-- Runs of the definitions at concrete data, and the theorems at inputs that meet their hypotheses.
mod Setup
mod Helpers
mod Accounts
mod Cipher
mod Crypto
mod Plugins
mod Watching
mod Logs
mod Serving
mod Schedule
mod Threads
mod Lifecycle
mod Exceptions
mod Desktop
mod Mains
