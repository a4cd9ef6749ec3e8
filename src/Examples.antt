-- ===== src/Examples.antt =====
-- The theorems at concrete inputs of the code in packages/ui/src: display lists, render plans, frame
-- resources, executions, layout ids and retained geometry.
mod DisplayLists
mod Layers
mod Plans
mod Resources
mod Compositor
mod Embedding
mod LayoutIds
mod RetainedGeometry
mod Executor
