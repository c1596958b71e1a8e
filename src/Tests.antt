-- ===== src/Tests.antt =====
-- Runs of the model on a small flow, and each theorem with hypotheses at a concrete input.
mod Sample
mod Building
mod Running
mod Steps
mod Whole
mod Lost
mod Ordered
mod Drawing
mod Slices
mod Commas
mod Validation
mod Pooling
mod Durations
mod Profiles
