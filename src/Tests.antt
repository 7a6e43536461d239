-- ===== src/Tests.antt =====
-- Runs of the model on concrete data, and the theorems applied to it.
mod Values
mod Data
mod OfManager
mod OfDecoder
mod OfWiring
mod OfNode
mod OfSocket
mod OfRound
mod OfShut
mod OfStart
mod OfTags
mod OfProgram
