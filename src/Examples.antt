-- ===== src/Examples.antt =====
-- The theorems at concrete inputs, and runs of the definitions.
mod Drive
mod FileSystems
mod PathNames
mod Screens
mod Keys
mod Lines
mod AtaDrive
mod Play
mod Interrupts
mod Commands
mod Files
mod Shown
mod Trees
