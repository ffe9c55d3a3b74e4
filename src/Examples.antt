-- ===== src/Examples.antt =====
-- Runs of the model at concrete inputs.
mod Reliable
mod Strings
mod World
mod Handlers
mod Client
mod Combat
mod Dispatch
mod Crc32
mod History
mod Numbers
mod Pipe
mod Mirror
mod Esm
mod Server
mod Bridge
