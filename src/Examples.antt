-- ===== src/Examples.antt =====
-- A small model of arrow that meets the laws, tests of the definitions, and the theorems at concrete
-- inputs.
mod Toy
mod Casts
mod Plans
mod Streams
mod Registries
mod Encodings
mod Tables
mod Readers
mod Decodings
mod Interchanges
mod Values
mod Framing
mod Writers
mod Bindings
mod Sinks
