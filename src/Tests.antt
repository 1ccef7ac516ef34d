-- ===== src/Tests.antt =====
-- The theorems at concrete states, and runs of the functions.
mod Scene
mod Gc
mod Objects
mod Limit
mod Stops
mod Text
mod Numbers
mod Names
mod Growth
mod Accounting
mod Account
mod Typed
mod Debugging
mod Reporting
mod Roots
mod Bases
mod Write
mod Read
