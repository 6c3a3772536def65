-- ===== src/Auth.antt =====
-- internal/auth: credentials (credential.go) and the manager that finds, refreshes and saves them
-- (manager.go). Times are nanoseconds, 0 being the zero time; `now` gives the time at each look of a
-- call. The credential store is a map with the errors that its calls return; a failed call leaves it as
-- it was. The lock of a provider makes each call one step.
pub mod Credential
pub mod Policies
pub mod Manager
pub mod Laws
pub mod Refreshed
pub mod Granted
mod Examples
pub use Credential.*
