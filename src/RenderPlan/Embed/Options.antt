-- ===== src/RenderPlan/Embed/Options.antt =====
-- The options of `append_embedded_render_plan` (packages/ui/src/compositor/render_plan.cpp) and the tests on them.
use haxeon.Prelude.{ℕ, Bool, ◌&&◌, ◌||◌, not, List, [], ◌∷◌, Option, ◌==◌, if◌then◌else◌}
use haxeon.Float32.{is_finite, fle, float_zero}
use haxeon.DisplayList.Wire.{field_at}
use haxeon.Compositor.Hash.{hash_offset, hash_u32, nonzero_hash}

-- A null `target_remap` is an empty one; no `destination_main_pass` stands for `size_t(-1)`.
pub record RenderPlanEmbedOptions : Type 0 where
  pub source_main_target : ℕ
  pub destination_main_target : ℕ
  pub placement : List ℕ
  pub pixel_scale : ℕ
  pub target_remap : List (ℕ × ℕ)
  pub destination_main_pass : Option ℕ
  pub has_clip : Bool
  pub clip : List ℕ
  pub has_command_transform : Bool
  pub command_transform : List ℕ
  pub preserve_bounded_target_local_commands : Bool
  pub cache_revision : ℕ
  pub retained_node_id : ℕ

pub record EmbedBounds : Type 0 where
  pub x : ℕ
  pub y : ℕ
  pub width : ℕ
  pub height : ℕ

unfoldable pub revisioned_cache_key : ℕ → ℕ → ℕ
revisioned_cache_key key revision =
    if revision == 0
    then key
    else nonzero_hash (hash_u32 revision (if key == 0 then hash_offset else key))

abbrev remapped : ℕ → List (ℕ × ℕ) → ℕ
remapped r [] = r
remapped r ((from, to) ∷ rest) = let later = remapped r rest in if from == r then to else later

unfoldable pub remap_embedding_resource : RenderPlanEmbedOptions → ℕ → ℕ
remap_embedding_resource o r =
    if r == o.source_main_target then o.destination_main_target else remapped r o.target_remap

abbrev not_negative : ℕ → Bool
not_negative f = fle float_zero f

unfoldable pub valid_embed_clip : RenderPlanEmbedOptions → Bool
valid_embed_clip o =
    not o.has_clip
    || (is_finite (field_at o.clip 0)
        && is_finite (field_at o.clip 1)
        && is_finite (field_at o.clip 2)
        && is_finite (field_at o.clip 3)
        && not_negative (field_at o.clip 2)
        && not_negative (field_at o.clip 3))

unfoldable pub finite_bounds : EmbedBounds → Bool
finite_bounds b =
    is_finite b.x
    && is_finite b.y
    && is_finite b.width
    && is_finite b.height
    && not_negative b.width
    && not_negative b.height
