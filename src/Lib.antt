-- ===== src/Lib.antt =====
-- The display lists, render plans, frame resources and layout ids of the haxeon user interface, the
-- C++ below packages/ui/src. A binding records a frame with the methods of `DisplayList`
-- (display_list/); a list that comes from elsewhere is taken over by `assign_validated`, behind
-- `validate_display_list`. The compositor compiles a list to a `RenderPlan` (compositor/), whose
-- passes `schedule_render_plan` orders. The renderer looks up what the commands name in
-- `FrameResources`; `OwnedFrameResources` keeps it alive, and `SealedRenderPlan::seal` joins a plan
-- with it (render/); `execute_render_plan` carries a plan out by the calls of a `UiRenderer`.
--
-- Which file models what:
-- - Float32: the type `float`, as its bit pattern; `std::isfinite`, `<` and `<=` are exact on it.
--   Rounding arithmetic is the parameter `Arith`.
-- - ResourceId: `make_resource_id` and `is_resource_id`.
-- - DisplayList/Wire, Effects, Commands: the records of display_list.h as little-endian bytes, the
--   tests of display_list.cpp on them, `check_opcode` being the `switch` of the validation, and
--   `decode_effect_op`.
-- - DisplayList/Validate: `validate_display_list`. Its children: Spec says without a loop what a
--   valid list is, Sound and Exact compare the two.
-- - DisplayList/Buffer: the storage of the class (constructor, `reset`, `reserve_record`,
--   `append`); Layers: the record of `append_layer`; Methods: the recording methods, the twelve
--   overloads of `begin_layer` as `LayerCall`. Methods/Proper states what arguments they are meant
--   for, Methods/Accepted that a record made from them is valid, Methods/Build runs several in
--   turn.
-- - DisplayList/Queries: `assign_validated` and `has_backdrop_effects`.
-- - RenderPlan/Types, Checks: the data of render_plan.h and the tests on passes and commands.
-- - RenderPlan/Schedule: `schedule_render_plan`, one function per loop (`connect` over the passes,
--   `depend_all` over the dependencies). Its children: Edges (`add_edge` keeps the counts), Loops
--   and Dependencies (the edges that the loops leave), Only and Declared (no other edges), Ending
--   (the order, or the cycle), Correct (what an order promises), Complete and Exact (which plans
--   get one).
-- - RenderPlan/Kahn: the ordering loop on a graph of numbers, with the priority queue as a sorted
--   list; Relax, Topological and Ends carry its invariant through a round, the loop and to its end.
-- - RenderPlan/Scale: `scale_render_plan_parameters` and `resolve_render_target_sampling`; doubles
--   are their binary64 patterns, and what rounds is the parameter `Doubles`. Scale/Sampling: its
--   laws.
-- - RenderPlan/Embed: `append_embedded_render_plan`; Options: what it is given, Place: its helpers
--   on commands and bounds. Alike (what a copy keeps), Found (the pass drawn into), Pushed and
--   Round serve Fed; Alike, Found, Grown and Refused (the pass that ends it with an error) serve
--   Grows. Fed and Grows are about the whole function.
-- - Compositor/Types, Reading (`read_layer`), Bounds (clips and margins), Passes (targets, passes,
--   dependencies; Passes/Fresh: the handles of the targets), Chain (effect and mask passes), Hash
--   (cache keys), Step (the `switch` of `Compositor::compile`, on the record `Machine` of its
--   locals) and Compile (its loop and the whole). Plan says what the scheduler wants of a plan,
--   Chain/Sound and Step/Layers that the building blocks keep it, Step/Settled and Step/Sound what
--   each command does to the locals. Compile/Ends, Wired, Answers and Ordered are about the loop,
--   the plan, the function and the scheduler behind it.
-- - FrameResources/Bindings: the template `FrameBindings`; Frames: `FrameResources`; Owned:
--   `OwnedFrameResources`, over a graphics library that is the parameter `Graphics`; Sealed:
--   `seal`.
-- - Executor: `execute_render_plan` (render/render_plan_executor.cpp) as steps on the history of
--   its calls to the abstract classes `UiRenderer` and `SurfaceProducer`, which answer each call
--   from the history, in any way. Calls: the methods; Hash: `runtime_pass_hash`; Surfaces: the loop
--   over the dependencies; Passes: one scheduled pass. Protocol says where a renderer stands behind
--   a history and what a pass leaves in it; Draws, Runs, Prepared, Frames and Whole follow the
--   execution, Succeeds and Completes a renderer that refuses nothing.
-- - LayoutIds: `LayoutIdIndex` (layout/layout_id_index.h), the hash table by which the layout finds
--   items by id. Walk is about its probing, Holds the invariant, Insert and Found the operations
--   under it, Refine the map that the table stands for.
-- - RetainedGeometry: render/retained_geometry.h. The file itself has the free ranges of a page;
--   Free is about giving back, Take about taking. Cache: the pages and the entries, `allocate` and
--   `evict`; Entries: `find`, `admit` and `insert`. Owners says who has a byte of a page; Placing,
--   Oldest, Kept, Given, Rooms and Runs follow the operations, Safe sequences of them.
-- - Examples: the theorems at concrete inputs.
--
-- A loop over bytes runs on fuel of one more than its bytes, since every record it takes has at
-- least 8 bytes; the ordering loop on one more than its passes, since every round schedules a new
-- pass; `grow` and `capacity_for` on 64 rounds, since as many doublings pass every `size_t`; the
-- probing of `LayoutIdIndex` on the slots in use, since one of them is empty while the table is at
-- most half full; the loops of `RetainedGeometry` on the entries, since each round but the last
-- evicts one or adds a page with room. Numbers keep the width of the source where they can wrap
-- (`command_count`, `growth_count`, the frame counter, `--indegree`). An operation that returns
-- false and changes nothing is `none`. Allocation does not fail.
--
-- Not modelled: the classes behind `UiRenderer`, the upload of the retained geometry, layout but
-- for its table of ids, text and paths, the C interface. Pointers are readable for the size that
-- comes with them, and the colour and radius pointers of the recording methods are not null.
pub mod Prelude
pub mod Float32
pub mod ResourceId
pub mod DisplayList
pub mod RenderPlan
pub mod Compositor
pub mod Executor
pub mod LayoutIds
pub mod RetainedGeometry
pub mod FrameResources
pub mod Examples
