-- ===== src/Examples.antt =====
-- Concrete inputs, the theorems at them, and tests of the definitions.
mod Data
mod Auth
mod History
mod Lifecycle
mod Mutations
mod Parts
mod Creation
mod Reads
mod Pg
mod Statements
mod Site
mod Ui
mod Evidence
mod Registering
mod Watching
mod Pad
