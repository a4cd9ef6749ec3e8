-- ===== src/Examples/Resources.antt =====
-- Concrete frame resources and handles (packages/ui/src/render, packages/ui/src/display_list).
use haxeon.Prelude.{
  ℕ, ◌+◌, ◌-◌, ◌/◌, ◌%◌, ◌^◌, ◌<◌, ◌≡◌, ◌⊎◌, refl, true, false, ◌&&◌, ◌||◌, not, List, [], ◌∷◌,
  none, some, arith, ◌==◌, if◌then◌else◌, get_elem?,
}
use haxeon.ResourceId.{
  image, text_layout, kind_code, generation_shift, generation_mask, slot_mask, make_resource_id,
  is_resource_id, is_resource_id-make,
}
use haxeon.RenderPlan.Types.{RenderPlan, RenderDependency, new_pass, default_descriptor}
use haxeon.FrameResources.Bindings.{FrameBindings, new_bindings, bind, get, reset}
use haxeon.FrameResources.Bindings.Refine.{
  Step, binding, resetting, run, promised, run-promised, reset-reset, new_bindings-IsValid,
  bind-IsValid,
}
use haxeon.FrameResources.Frames.{
  FrameResources, new_resources, bind_text, refused_identity, path_of, image_of, text_of,
  surface_of, graphics_image_of, content_generation_of, source_identity_of, reset_resources,
}
use haxeon.FrameResources.Frames.Laws.{new_resources-AllValid, reset_resources_lem, bind_text_lem}
use haxeon.FrameResources.Owned.{
  Graphics, OwnedCall, graphics_image_call, new_owned, perform_all, reset_owned,
}
use haxeon.FrameResources.Owned.Leases.{Counts, held, perform_all-refs}
use haxeon.FrameResources.Sealed.{Owns, seal, seal-Owns}

is_resource_id-make_example :
    let id = make_resource_id text_layout 3 9 in
    (is_resource_id id image ≡ (kind_code image == kind_code text_layout))
    × (id < 2 ^ 32)
    × (id / 2 ^ generation_shift % (generation_mask + 1) ≡ 3)
    × (id % (slot_mask + 1) ≡ 9)
is_resource_id-make_example =
    is_resource_id-make text_layout image 3 9 (omega arith) (omega arith) (omega arith)
      (omega arith)

-- Steps that bind an id twice, reset, and bind again.
abbrev steps : List (Step ℕ)
steps = binding 5 10 ∷ binding 5 11 ∷ binding 6 12 ∷ resetting ∷ binding 6 13 ∷ []

run-promised_example : get 6 (run steps new_bindings) ≡ promised steps (λ k. get k new_bindings) 6
run-promised_example = run-promised steps new_bindings 6 new_bindings-IsValid

abbrev one_bound : FrameBindings ℕ
one_bound = bind 5 10 new_bindings

reset-reset_example : (reset (reset one_bound)).rows ≡ []
reset-reset_example = reset-reset one_bound (bind-IsValid 5 10 new_bindings new_bindings-IsValid)

reset_resources_lem_example :
    let r' = reset_resources new_resources in
    (path_of 4 r' ≡ none)
    × (image_of 4 r' ≡ none)
    × (text_of 4 r' ≡ none)
    × (surface_of 4 r' ≡ none)
    × (graphics_image_of 4 r' ≡ none)
    × (content_generation_of 4 r' ≡ 0)
    × (source_identity_of 4 r' ≡ 4)
reset_resources_lem_example = reset_resources_lem new_resources 4 new_resources-AllValid

-- A text handle of generation 1 in slot 2, and another in slot 3.
abbrev text_id : ℕ
text_id = 0x30010002

abbrev source_id : ℕ
source_id = 0x30010003

abbrev bound_text : FrameResources
bound_text = record new_resources {
  source_identities = bind text_id source_id new_bindings;
  texts = bind text_id 77 new_bindings;
  content_generations = bind text_id 8 new_bindings;
}

text_is_bound : bind_text text_id 77 8 source_id new_resources ≡ some bound_text
unfolding bind_text is_resource_id refused_identity
text_is_bound = refl

bind_text_lem_example :
    (is_resource_id text_id text_layout ≡ true)
    × ((source_id == 0
          || is_resource_id source_id text_layout && (source_id == text_id || not (8 == 0)))
        ≡ true)
    × ((other : ℕ)
        → (text_of other bound_text
            ≡ (if text_id == other then some 77 else text_of other new_resources))
          × (content_generation_of other bound_text
              ≡ (if text_id == other then 8 else content_generation_of other new_resources))
          × (source_identity_of other bound_text ≡ (
              if text_id == other
              then (if source_id == 0 then text_id else source_id)
              else source_identity_of other new_resources))
          × (path_of other bound_text ≡ path_of other new_resources)
          × (image_of other bound_text ≡ image_of other new_resources)
          × (surface_of other bound_text ≡ surface_of other new_resources)
          × (graphics_image_of other bound_text ≡ graphics_image_of other new_resources))
bind_text_lem_example = bind_text_lem text_id 77 8 source_id new_resources bound_text text_is_bound

-- A graphics library whose state is the reference count of each image, and that grants every retain
-- but that of the image 9.
abbrev counting : Graphics (ℕ → ℕ)
counting = record {
  retain = λ i s. if i == 9 then (false, s) else (true, λ j. s j + (if i == j then 1 else 0));
  release = λ i s. λ j. s j - (if i == j then 1 else 0);
}

counting-Counts : Counts counting (λ s. s)
counting-Counts = record {
  retained = λ i s h j. ground arith;
  refused = λ i s h j. ground arith;
  released = λ i s h j. ground arith;
}

-- A render target handle; one image is bound twice, replaced, refused, and bound to no target.
abbrev target_id : ℕ
target_id = 0x40010001

abbrev calls : List OwnedCall
calls =
    graphics_image_call target_id 3 1
    ∷ graphics_image_call target_id 3 2
    ∷ graphics_image_call target_id 4 3
    ∷ graphics_image_call target_id 9 4
    ∷ graphics_image_call text_id 4 5
    ∷ []

perform_all-refs_example :
    let (o, s') = perform_all counting calls new_owned (λ j. 0) in
    ((j : ℕ) → s' j ≡ 0 + held o.leases j) × ((j : ℕ) → (reset_owned counting o s').1 j ≡ 0)
perform_all-refs_example = perform_all-refs counting (λ s. s) counting-Counts calls (λ j. 0)

-- A plan that samples a target which none of its passes draws.
abbrev outside : RenderPlan
outside = record {
  passes = new_pass target_id default_descriptor false ∷ [];
  dependencies = record { producer = 0x40010002; consumer = target_id } ∷ [];
  isolated_layers = 0;
  bounded_layers = 0;
}

seal-Owns_example :
    (((k : ℕ) (d : RenderDependency)
        → get_elem? outside.dependencies k ≡ some d
        → Owns outside new_owned d)
      × (seal outside new_owned ≡ some (record { plan = outside; resources = new_owned })))
    ⊎ (((k : ℕ) × (d : RenderDependency) × (get_elem? outside.dependencies k ≡ some d)
          × (¬ Owns outside new_owned d))
        × (seal outside new_owned ≡ none))
seal-Owns_example = seal-Owns outside new_owned
