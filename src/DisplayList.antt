-- ===== src/DisplayList.antt =====
-- packages/ui/src/display_list: the byte stream of drawing commands.
pub mod Wire
pub mod Effects
pub mod Commands
pub mod Validate
pub mod Buffer
pub mod Layers
pub mod Methods
pub mod Queries
