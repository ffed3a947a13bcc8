-- ===== src/Tests.antt =====
-- The theorems at concrete inputs, and the functions that stand there for the code outside.
mod Waits
mod Hooks
mod Settings
mod Live
mod Requests
mod Web
mod Streams
mod Daemon
mod Reapers
mod Processes
mod Archives
mod Logins
mod Tunnelling
mod Databases
