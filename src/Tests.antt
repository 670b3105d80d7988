-- ===== src/Tests.antt =====
-- The theorems at concrete inputs.
mod Agreement
mod Streams
mod Splices
mod Examples
mod Tapes
mod Objects
mod Files
mod Print
mod Memory
mod Install
mod Buffered
mod Opened
mod Native
mod Rings
mod OverRings
mod Engines
