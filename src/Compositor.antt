-- ===== src/Compositor.antt =====
-- packages/ui/src/compositor/compositor.cpp: a display list compiled to a render plan.
pub mod Commands
pub mod Better
pub mod Types
pub mod Reading
pub mod Bounds
pub mod Passes
pub mod Plan
pub mod Chain
pub mod Hash
pub mod Step
pub mod Compile
