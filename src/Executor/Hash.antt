-- ===== src/Executor/Hash.antt =====
-- The runtime hash of a pass in packages/ui/src/render/render_plan_executor.cpp, which the caches of the
-- renderer are asked with. What is hashed is a list of 32-bit words; `hash_runtime_u32` and
-- `hash_runtime_u64` are the same code as in the compositor.
use haxeon.Prelude.{
  ℕ, ◌≡◌, false, List, [], ◌∷◌, ◌++◌, Option, none, some, ◌==◌, if◌then◌else◌, arith,
}
use haxeon.RenderPlan.Types.{
  RenderCommand, RenderPass, draw_pass, effect_pass, mask_pass, raster_pass,
}
use haxeon.RenderPlan.Checks.{is_composite}
use haxeon.Compositor.Hash.{
  Hashes, hash_offset, hash_words, u64_words, bool_word, command_code, pass_code, effect_words,
  mask_hash_words, known_hash,
}
use haxeon.FrameResources.Frames.{
  FrameResources, surface_of, graphics_image_of, content_generation_of, source_identity_of,
}

-- `hash_runtime_command_geometry`
unfoldable pub geometry_words : RenderCommand → List ℕ
geometry_words c =
    (c.x ∷ c.y ∷ c.width ∷ c.height ∷ c.opacity ∷ c.stroke_width ∷ c.miter_limit ∷ c.transform)
    ++ (c.composite ∷ bool_word c.has_scissor ∷ [])
    ++ (if c.has_scissor
        then c.scissor_x ∷ c.scissor_y ∷ c.scissor_width ∷ c.scissor_height ∷ []
        else [])
    ++ (c.line_cap ∷ c.line_join ∷ bool_word c.custom_payload ∷ [])
    ++ (c.box_shadow.offset_x ∷ c.box_shadow.offset_y ∷ c.box_shadow.blur_sigma
        ∷ c.box_shadow.spread ∷ c.box_shadow.radii)
    ++ c.box_shadow.color
    ++ c.source_uv_extent
    ++ (c.rect_border.width ∷ c.rect_border.color)

-- `generation` is what a surface producer answers now.
module _ (generation : ℕ → ℕ) (resources : FrameResources) where
  abbrev surface_words : Option ℕ → Option ℕ → List ℕ
  surface_words (some producer) picture = 1 ∷ generation producer ∷ []
  surface_words none (some picture) = 2 ∷ picture ∷ []
  surface_words none none = 0 ∷ []

  -- `hash_runtime_resource`
  unfoldable pub resource_words : ℕ → List ℕ
  resource_words resource =
      (source_identity_of resource resources ∷ u64_words (content_generation_of resource resources))
      ++ surface_words (surface_of resource resources) (graphics_image_of resource resources)

  abbrev target_words_of : ℕ → Option ℕ → List ℕ
  target_words_of target (some hash) = 1 ∷ u64_words hash
  target_words_of target none = 2 ∷ resource_words target

  -- `hash_runtime_target`
  abbrev pub target_words : Hashes → ℕ → List ℕ
  target_words hashes target = target_words_of target (known_hash target hashes)

  -- `hash_runtime_command_source`
  abbrev pub source_words : Hashes → RenderCommand → List ℕ
  source_words hashes c =
      command_code c.kind
      ∷ (if is_composite c.kind then target_words hashes c.resource else resource_words c.resource)

  abbrev pub runtime_commands_words : Hashes → List RenderCommand → List ℕ
  runtime_commands_words hashes [] = []
  runtime_commands_words hashes (c ∷ cs) =
      u64_words c.content_generation
      ++ geometry_words c
      ++ source_words hashes c
      ++ runtime_commands_words hashes cs

  abbrev earlier_words : Option ℕ → List ℕ
  earlier_words none = []
  earlier_words (some hash) = u64_words hash

  -- What a pass with commands is hashed from.
  abbrev drawn_words : Hashes → ℕ → RenderPass → List ℕ
  drawn_words hashes serial p =
      earlier_words (known_hash p.target hashes)
      ++ (if p.load_existing then u64_words serial else [])
      ++ runtime_commands_words hashes p.commands

  unfoldable pub runtime_pass_words : Hashes → ℕ → RenderPass → List ℕ
  runtime_pass_words hashes serial p = elim p.kind [
    | draw_pass ↦ drawn_words hashes serial p
    | raster_pass ↦ drawn_words hashes serial p
    | effect_pass ↦ target_words hashes p.input_target ++ effect_words p
    | mask_pass ↦
        target_words hashes p.input_target
        ++ mask_hash_words p.mask
        ++ (if p.mask.kind == 5 then resource_words p.mask.image else [])
  ]

  -- `hash ? hash : 1`
  abbrev pub or_one : ℕ → ℕ
  or_one hash = if hash == 0 then 1 else hash

  unfoldable pub runtime_pass_hash : Hashes → ℕ → RenderPass → ℕ
  unfolding runtime_pass_words hash_words
  runtime_pass_hash hashes serial p = or_one (
      hash_words (pass_code p.kind ∷ runtime_pass_words hashes serial p)
        (if p.cache_key == 0 then hash_offset else p.cache_key))

-- `width` and `height` of the window are 32-bit patterns.
unfoldable pub frame_effect_cache_key : ℕ → ℕ → ℕ → ℕ
frame_effect_cache_key key width height =
    let mixed = hash_words (width ∷ height ∷ []) key in
    if key == 0 then 0 else if mixed == 0 then 1 else mixed

-- The caches are never asked with the key 0, which they take for a pass that is not cached.
pub frame_effect_cache_key-nonzero :
    (generation : ℕ → ℕ) (r : FrameResources) (hashes : Hashes) (serial : ℕ) (p : RenderPass)
    (width height : ℕ)
    → (frame_effect_cache_key (runtime_pass_hash generation r hashes serial p) width height == 0)
      ≡ false
unfolding frame_effect_cache_key runtime_pass_hash
frame_effect_cache_key-nonzero generation r hashes serial p width height = ground arith
