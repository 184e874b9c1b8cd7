-- ===== src/Tests.antt =====
-- Runs of the modelled operations on concrete inputs.
mod Registry
mod Hub
mod Commands
mod History
mod Runtime
mod Joint
mod Catalog
mod Api
mod Volumes
