-- ===== src/RenderPlan.antt =====
-- packages/ui/src/compositor/render_plan.cpp and render_plan.h: plans of render passes.
pub mod Embed
pub mod Scale
pub mod Types
pub mod Checks
pub mod Kahn
pub mod Schedule
