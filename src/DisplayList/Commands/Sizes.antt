-- ===== src/DisplayList/Commands/Sizes.antt =====
-- The bounds and the record sizes of packages/ui/src/display_list/display_list.h and display_list.cpp.
use haxeon.Prelude.{ℕ}

abbrev pub max_scope_depth : ℕ
max_scope_depth = 1024

abbrev pub layer_command_version : ℕ
layer_command_version = 2

-- `sizeof` of the structs: eight bytes of header and four for each field.
abbrev pub transform_size : ℕ
transform_size = 32

-- `SetPaintCommand`, `SetGlobalAlphaCommand`, `SetCompositeModeCommand` and `DrawResourceCommand`.
abbrev pub one_field_size : ℕ
one_field_size = 12

abbrev pub scope_size : ℕ
scope_size = 8

abbrev pub clip_size : ℕ
clip_size = 24

abbrev pub stroke_size : ℕ
stroke_size = 28

abbrev pub box_shadow_size : ℕ
box_shadow_size = 72

abbrev pub rect_border_size : ℕ
rect_border_size = 44

abbrev pub rect_resource_size : ℕ
rect_resource_size = 28

abbrev pub begin_layer_size : ℕ
begin_layer_size = 84

abbrev pub effect_op_size : ℕ
effect_op_size = 196

abbrev pub layer_unbounded_v1_size : ℕ
layer_unbounded_v1_size = 16

abbrev pub layer_v1_size : ℕ
layer_v1_size = 36

abbrev pub layer_effect_v1_size : ℕ
layer_effect_v1_size = 120

abbrev pub layer_mask_v1_size : ℕ
layer_mask_v1_size = 160

abbrev pub layer_backdrop_v1_size : ℕ
layer_backdrop_v1_size = 244

abbrev pub layer_custom_v1_size : ℕ
layer_custom_v1_size = 148
