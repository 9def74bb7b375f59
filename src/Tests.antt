-- ===== src/Tests.antt =====
-- Runs of the definitions on inputs of the source's own tests, and instances of the theorems.
mod Blobs
mod Versions
mod Dependencies
mod Hashes
mod Repositories
mod Archives
mod Solver
mod Adb
mod Databases
