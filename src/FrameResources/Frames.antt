-- ===== src/FrameResources/Frames.antt =====
-- `FrameResources` of packages/ui/src/render/frame_resources.h and frame_resources.cpp. What is
-- borrowed is an address; a resource id is its value. An operation that the source refuses
-- (`return false`) is `none`: every test stands before the first change.
pub mod Laws
use haxeon.Prelude.{
  ℕ, ◌^◌, Bool, true, false, ◌&&◌, ◌||◌, not, Option, none, some, ltb, leb, ◌==◌, if◌then◌else◌,
}
use haxeon.ResourceId.{is_resource_id, path, image, text_layout, render_target}
use haxeon.FrameResources.Bindings.{FrameBindings, new_bindings, bind, get, reset}

-- A prepared path: its address and `operations().size()`.
pub record PreparedPath : Type 0 where
  pub address : ℕ
  pub operations : ℕ

-- A prepared texture; `width` and `height` are `int`, as 32-bit patterns.
pub record PreparedTexture : Type 0 where
  pub address : ℕ
  pub width : ℕ
  pub height : ℕ
  pub pixels : ℕ

pub record PreparedPathRef : Type 0 where
  pub path : ℕ
  pub operation_index : ℕ

pub record FrameResources : Type 0 where
  pub paths : FrameBindings PreparedPathRef
  pub images : FrameBindings ℕ
  pub texts : FrameBindings ℕ
  pub surfaces : FrameBindings ℕ
  pub graphics_images : FrameBindings ℕ
  pub content_generations : FrameBindings ℕ
  pub source_identities : FrameBindings ℕ

abbrev pub new_resources : FrameResources
new_resources = record {
  paths = new_bindings;
  images = new_bindings;
  texts = new_bindings;
  surfaces = new_bindings;
  graphics_images = new_bindings;
  content_generations = new_bindings;
  source_identities = new_bindings;
}

-- `x > 0` on an `int`
abbrev pub is_positive : ℕ → Bool
is_positive x = ltb 0 x && ltb x (2 ^ 31)

unfoldable pub bind_path : ℕ → PreparedPath → ℕ → ℕ → FrameResources → Option FrameResources
bind_path id p operation_index generation r =
    if not (is_resource_id id path) || leb p.operations operation_index
    then none
    else some (record r {
      paths = bind id (record { path = p.address; operation_index = operation_index }) r.paths;
      content_generations = bind id generation r.content_generations;
    })

unfoldable pub bind_image : ℕ → PreparedTexture → ℕ → FrameResources → Option FrameResources
bind_image id t generation r =
    if not (is_resource_id id image)
      || not (is_positive t.width)
      || not (is_positive t.height)
      || t.pixels == 0
    then none
    else some (record r {
      images = bind id t.address r.images;
      content_generations = bind id generation r.content_generations;
    })

-- The test of the source identity, which may be empty.
unfoldable pub refused_identity : ℕ → ℕ → ℕ → Bool
refused_identity id generation source =
    not (source == 0)
    && (not (is_resource_id source text_layout) || not (source == id) && generation == 0)

unfoldable pub bind_text : ℕ → ℕ → ℕ → ℕ → FrameResources → Option FrameResources
bind_text id glyphs generation source r =
    if not (is_resource_id id text_layout) || refused_identity id generation source
    then none
    else some (record r {
      source_identities = bind id (if source == 0 then id else source) r.source_identities;
      texts = bind id glyphs r.texts;
      content_generations = bind id generation r.content_generations;
    })

unfoldable pub bind_surface : ℕ → ℕ → ℕ → FrameResources → Option FrameResources
bind_surface id producer generation r =
    if not (is_resource_id id render_target)
    then none
    else some (record r {
      surfaces = bind id producer r.surfaces;
      content_generations = bind id generation r.content_generations;
    })

unfoldable pub bind_graphics_image : ℕ → ℕ → ℕ → FrameResources → Option FrameResources
bind_graphics_image id picture generation r =
    if not (is_resource_id id render_target) || picture == 0
    then none
    else some (record r {
      graphics_images = bind id picture r.graphics_images;
      content_generations = bind id generation r.content_generations;
    })

abbrev or_else : {A : Type 0} → Option A → A → A
or_else none d = d
or_else (some x) d = x

abbrev pub path_of : ℕ → FrameResources → Option PreparedPathRef
path_of id r = get id r.paths

abbrev pub image_of : ℕ → FrameResources → Option ℕ
image_of id r = get id r.images

abbrev pub text_of : ℕ → FrameResources → Option ℕ
text_of id r = get id r.texts

abbrev pub surface_of : ℕ → FrameResources → Option ℕ
surface_of id r = get id r.surfaces

abbrev pub graphics_image_of : ℕ → FrameResources → Option ℕ
graphics_image_of id r = get id r.graphics_images

unfoldable pub content_generation_of : ℕ → FrameResources → ℕ
content_generation_of id r = or_else (get id r.content_generations) 0

unfoldable pub source_identity_of : ℕ → FrameResources → ℕ
source_identity_of id r = or_else (get id r.source_identities) id

unfoldable pub reset_resources : FrameResources → FrameResources
reset_resources r = record {
  paths = reset r.paths;
  images = reset r.images;
  texts = reset r.texts;
  surfaces = reset r.surfaces;
  graphics_images = reset r.graphics_images;
  content_generations = reset r.content_generations;
  source_identities = reset r.source_identities;
}
