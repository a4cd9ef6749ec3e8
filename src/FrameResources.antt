-- ===== src/FrameResources.antt =====
-- packages/ui/src/render/frame_resources.h, frame_resources.cpp and sealed_render_plan.cpp.
pub mod Bindings
pub mod Frames
pub mod Owned
pub mod Sealed
