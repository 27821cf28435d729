-- ===== src/Tests.antt =====
-- Runs at concrete data.
mod Instances
mod Text
mod Lines
mod Imports
mod Tiles
mod Updates
mod Connection
mod Arrays
mod Styles
mod Passes
mod Addresses
