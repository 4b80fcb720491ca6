-- ===== src/Tests.antt =====
-- Runs of the model on concrete inputs. They model no code.
mod Fixtures
mod Main
mod Parts
mod Runs
mod Steps
mod Updates
mod Workers
mod Copies
