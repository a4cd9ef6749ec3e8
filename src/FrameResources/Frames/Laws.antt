-- ===== src/FrameResources/Frames/Laws.antt =====
-- What the operations of `FrameResources` (packages/ui/src/render/frame_resources.cpp) leave behind.
use haxeon.Prelude.{
  ℕ, ◌≡◌, inl, inr, refl, true, false, ◌&&◌, ◌||◌, not, none, some, arith, ◌==◌, if◌then◌else◌,
  Bool-cases,
}
use haxeon.ResourceId.{is_resource_id, text_layout}
use haxeon.FrameResources.Bindings.{bind}
use haxeon.FrameResources.Bindings.Refine.{IsValid, get-bind, get-reset, new_bindings-IsValid}
use haxeon.FrameResources.Frames.{
  FrameResources, new_resources, bind_text, refused_identity, path_of, image_of, text_of,
  surface_of, graphics_image_of, content_generation_of, source_identity_of, reset_resources,
}

pub record AllValid (r : FrameResources) : Type 0 where
  pub paths : IsValid r.paths
  pub images : IsValid r.images
  pub texts : IsValid r.texts
  pub surfaces : IsValid r.surfaces
  pub graphics_images : IsValid r.graphics_images
  pub content_generations : IsValid r.content_generations
  pub source_identities : IsValid r.source_identities

pub new_resources-AllValid : AllValid new_resources
new_resources-AllValid = record {
  paths = new_bindings-IsValid;
  images = new_bindings-IsValid;
  texts = new_bindings-IsValid;
  surfaces = new_bindings-IsValid;
  graphics_images = new_bindings-IsValid;
  content_generations = new_bindings-IsValid;
  source_identities = new_bindings-IsValid;
}

-- After a reset no id is bound to anything: the lookups of valid resources find nothing, the content
-- generation of every id is 0 and every id is its own source identity.
pub reset_resources_lem :
    (r : FrameResources) (id : ℕ)
    → AllValid r
    → let r' = reset_resources r in
      (path_of id r' ≡ none)
      × (image_of id r' ≡ none)
      × (text_of id r' ≡ none)
      × (surface_of id r' ≡ none)
      × (graphics_image_of id r' ≡ none)
      × (content_generation_of id r' ≡ 0)
      × (source_identity_of id r' ≡ id)
unfolding reset_resources content_generation_of source_identity_of
reset_resources_lem r id v = (
  get-reset id r.paths v.paths,
  get-reset id r.images v.images,
  get-reset id r.texts v.texts,
  get-reset id r.surfaces v.surfaces,
  get-reset id r.graphics_images v.graphics_images,
  rw (get-reset id r.content_generations v.content_generations) refl,
  rw (get-reset id r.source_identities v.source_identities) refl,
)

-- What `bind_text` writes.
abbrev written : ℕ → ℕ → ℕ → ℕ → FrameResources → FrameResources
written id glyphs generation source r = record r {
  source_identities = bind id (if source == 0 then id else source) r.source_identities;
  texts = bind id glyphs r.texts;
  content_generations = bind id generation r.content_generations;
}

bind_text-cases :
    (id glyphs generation source : ℕ) (r r' : FrameResources)
    → bind_text id glyphs generation source r ≡ some r'
    → (is_resource_id id text_layout ≡ true)
      × (refused_identity id generation source ≡ false)
      × (r' ≡ written id glyphs generation source r)
unfolding bind_text
bind_text-cases id glyphs generation source r r' run =
    elim (Bool-cases (is_resource_id id text_layout)) [
      | inr bad ↦ cc (rw bad at run)
      | inl kind ↦ elim (Bool-cases (refused_identity id generation source)) [
        | inl bad ↦ cc (rw (kind, bad) at run)
        | inr allowed ↦
            let done : some (written id glyphs generation source r) ≡ some r' =
              rw (kind, allowed) at run in
            (kind, allowed, cc)
      ]
    ]

allowed_identity :
    (id generation source : ℕ)
    → refused_identity id generation source ≡ false
    → (source == 0 || is_resource_id source text_layout && (source == id || not (generation == 0)))
      ≡ true
unfolding refused_identity
allowed_identity id generation source h = ground arith

written_lookups :
    (id glyphs generation source : ℕ) (r : FrameResources) (other : ℕ)
    → let r' = written id glyphs generation source r in
      (text_of other r' ≡ (if id == other then some glyphs else text_of other r))
      × (content_generation_of other r'
          ≡ (if id == other then generation else content_generation_of other r))
      × (source_identity_of other r' ≡ (
          if id == other then (if source == 0 then id else source) else source_identity_of other r))
      × (path_of other r' ≡ path_of other r)
      × (image_of other r' ≡ image_of other r)
      × (surface_of other r' ≡ surface_of other r)
      × (graphics_image_of other r' ≡ graphics_image_of other r)
unfolding content_generation_of source_identity_of
written_lookups id glyphs generation source r other = (
  get-bind id other glyphs r.texts,
  rw (get-bind id other generation r.content_generations) (ground arith),
  rw (get-bind id other (if source == 0 then id else source) r.source_identities) (ground arith),
  refl,
  refl,
  refl,
  refl,
)

-- A text binding that is accepted has a text id and, where it names a source, a source that is a text id
-- and is the id itself or comes with a generation. It is then found under its id with its
-- generation and its source (the id itself if none is named), and lookups of other ids and of other
-- kinds stay as they were.
pub bind_text_lem :
    (id glyphs generation source : ℕ) (r r' : FrameResources)
    → bind_text id glyphs generation source r ≡ some r'
    → (is_resource_id id text_layout ≡ true)
      × ((source == 0
            || is_resource_id source text_layout && (source == id || not (generation == 0)))
          ≡ true)
      × ((other : ℕ)
          → (text_of other r' ≡ (if id == other then some glyphs else text_of other r))
            × (content_generation_of other r'
                ≡ (if id == other then generation else content_generation_of other r))
            × (source_identity_of other r' ≡ (
                if id == other
                then (if source == 0 then id else source)
                else source_identity_of other r))
            × (path_of other r' ≡ path_of other r)
            × (image_of other r' ≡ image_of other r)
            × (surface_of other r' ≡ surface_of other r)
            × (graphics_image_of other r' ≡ graphics_image_of other r))
bind_text_lem id glyphs generation source r r' run =
    let (kind, allowed, same) = bind_text-cases id glyphs generation source r r' run in
    (
      kind,
      allowed_identity id generation source allowed,
      λ other. rw same (written_lookups id glyphs generation source r other),
    )
