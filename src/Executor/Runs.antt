-- ===== src/Executor/Runs.antt =====
-- The passes of packages/ui/src/render/render_plan_executor.cpp: each begins once, runs and ends, in the
-- scheduled order.
use haxeon.Prelude.{
  ℕ, ◌≡◌, ◌⊎◌, inl, inr, refl, sym, subst, Bool, true, false, List, ◌∷◌, Option, none, some, ◌==◌,
  if◌then◌else◌, Bool-cases, Option-cases,
}
use haxeon.RenderPlan.Types.{
  RenderPass, RenderPassKind, draw_pass, effect_pass, mask_pass, raster_pass,
}
use haxeon.Compositor.Hash.{Hashes}
use haxeon.FrameResources.Frames.{FrameResources, image_of}
use haxeon.Executor.Calls.{
  History, UiRenderer, Reply, filter, apply_mask, call, last_error, pure, fail, ◌>>=◌, ◌>>◌,
}
use haxeon.Executor.Hash.{frame_effect_cache_key, frame_effect_cache_key-nonzero}
use haxeon.Executor.Surfaces.{WindowTarget, Extents}
use haxeon.Executor.Passes.{
  run_pass, effect_filtering, begin_call, begun, hit_of, hash_now, execute_pass, try_in_pass,
  finish_pass, mask_image, apply_mask_to,
}
use haxeon.Executor.Protocol.{
  Phase, in_frame, in_pass, Mark, opened, filtered, phase, At, Behind, bind-Behind, Behind-map,
}
use haxeon.Executor.Draws.{drawn_marks, draw_commands-At, filter-At, finish_pass-At}

-- What a pass leaves on top of `ms`, if a cache had it or not.
abbrev pub run_marks : FrameResources → RenderPass → Bool → List Mark → List Mark
run_marks resources p hit ms = elim p.kind [
  | effect_pass ↦ if hit then ms else filtered (effect_filtering p) ∷ ms
  | raster_pass ↦ if hit then ms else drawn_marks resources p.commands ms
  | mask_pass ↦
      filtered (
        apply_mask p.input_target p.mask
          (if p.mask.kind == 5 then image_of p.mask.image resources else none))
      ∷ ms
  | draw_pass ↦ drawn_marks resources p.commands ms
]

-- The target that a pass opens; the window has none.
abbrev pub opened_target : ℕ → RenderPass → Option ℕ
opened_target window p =
    let plain = if p.target == window then none else some p.target in
    elim p.kind [
      | effect_pass ↦ some p.target
      | raster_pass ↦ some p.target
      | mask_pass ↦ plain
      | draw_pass ↦ plain
    ]

-- Where a pass stands that has begun.
abbrev started : RenderPass → Bool → Phase
started p hit = elim p.kind [
  | effect_pass ↦ if hit then in_frame else in_pass
  | raster_pass ↦ if hit then in_frame else in_pass
  | mask_pass ↦ in_pass
  | draw_pass ↦ in_pass
]

mask-At :
    (ui : UiRenderer) (p : RenderPass) (pass : ℕ) (picture : Option ℕ) (ms : List Mark)
    (h : History)
    → At in_pass ms h
    → Behind
        (λ _. At in_frame (filtered (apply_mask p.input_target p.mask picture) ∷ ms))
        (apply_mask_to ui p pass (some picture) h)
mask-At ui p pass picture ms h at =
    let m = filtered (apply_mask p.input_target p.mask picture) ∷ ms in
    bind-Behind (λ _. At in_pass m) (λ _. At in_frame m)
      (try_in_pass ui (filter (apply_mask p.input_target p.mask picture)) pass 0)
      (λ _. finish_pass ui pass 0) h
      (filter-At ui ms pass 0 h at (apply_mask p.input_target p.mask picture))
      (λ _ h' at'. finish_pass-At ui m pass 0 h' at')

effect-At :
    (ui : UiRenderer) (p : RenderPass) (pass : ℕ) (ms : List Mark) (h : History)
    → At in_pass ms h
    → Behind
        (λ _. At in_frame (filtered (effect_filtering p) ∷ ms))
        ((try_in_pass ui (filter (effect_filtering p)) pass 0 >> finish_pass ui pass 0) h)
effect-At ui p pass ms h at =
    bind-Behind (λ _. At in_pass (filtered (effect_filtering p) ∷ ms))
      (λ _. At in_frame (filtered (effect_filtering p) ∷ ms))
      (try_in_pass ui (filter (effect_filtering p)) pass 0) (λ _. finish_pass ui pass 0) h
      (filter-At ui ms pass 0 h at (effect_filtering p))
      (λ _ h' at'. finish_pass-At ui (filtered (effect_filtering p) ∷ ms) pass 0 h' at')

image_cases :
    (p : RenderPass) (resources : FrameResources)
    → (mask_image resources p ≡ none)
      ⊎ (mask_image resources p
          ≡ some (if p.mask.kind == 5 then image_of p.mask.image resources else none))
image_cases p resources = elim (Bool-cases (p.mask.kind == 5)) [
  | inr other ↦ inr (rw other refl)
  | inl wanted ↦ elim (Option-cases (image_of p.mask.image resources)) [
    | inl missing ↦ inl (rw (wanted, missing) refl)
    | inr (picture, bound) ↦ inr (rw (wanted, bound) refl)
  ]
]

run_kind-At :
    (ui : UiRenderer) (resources : FrameResources) (pass : ℕ) (p : RenderPass) (k : RenderPassKind)
    (hit : Bool) (ms : List Mark) (h : History)
    → p.kind ≡ k
    → At (started p hit) ms h
    → Behind (λ _. At in_frame (run_marks resources p hit ms)) (run_pass ui resources pass p hit h)
unfolding run_pass effect_filtering
run_kind-At ui resources pass p draw_pass hit ms h e at =
    rw e (draw_commands-At ui resources pass 0 p.commands ms h (rw e at at))
run_kind-At ui resources pass p raster_pass true ms h e at = rw e (rw e at at)
run_kind-At ui resources pass p raster_pass false ms h e at =
    rw e (draw_commands-At ui resources pass 0 p.commands ms h (rw e at at))
run_kind-At ui resources pass p effect_pass true ms h e at = rw e (rw e at at)
run_kind-At ui resources pass p effect_pass false ms h e at =
    rw e (effect-At ui p pass ms h (rw e at at))
run_kind-At ui resources pass p mask_pass hit ms h e at = elim (image_cases p resources) [
  | inl missing ↦ rw (e, missing) (inl (rw ((rw e at at).place) refl))
  | inr image ↦
      rw (e, image)
        (mask-At ui p pass (if p.mask.kind == 5 then image_of p.mask.image resources else none) ms h
          (rw e at at))
]

module _ (ext : Extents) (window : WindowTarget) (hash : ℕ) (p : RenderPass)
    (key : (frame_effect_cache_key hash window.width window.height == 0) ≡ false) where
  -- The call that begins a pass opens it, and asks no cache with the key 0.
  begin_kind-At :
      (k : RenderPassKind) (ms : List Mark) (h : History) (r : Reply)
      → p.kind ≡ k
      → At in_frame ms h
      → r.done ≡ true
      → At
          (started p (hit_of p r))
          (opened (opened_target window.id p) (hit_of p r) ∷ ms)
          ((begin_call ext window hash p, r) ∷ h)
  unfolding begin_call
  begin_kind-At draw_pass ms h r e at good = elim (Bool-cases (p.target == window.id)) [
    | inl same ↦ record {
      place = rw (e, same, at.place, good) refl;
      trace = rw (e, same, good, at.trace) refl;
    }
    | inr other ↦ record {
      place = rw (e, other, at.place, good) refl;
      trace = rw (e, other, good, at.trace) refl;
    }
  ]
  begin_kind-At mask_pass ms h r e at good = elim (Bool-cases (p.target == window.id)) [
    | inl same ↦ record {
      place = rw (e, same, at.place, good) refl;
      trace = rw (e, same, good, at.trace) refl;
    }
    | inr other ↦ record {
      place = rw (e, other, at.place, good) refl;
      trace = rw (e, other, good, at.trace) refl;
    }
  ]
  begin_kind-At effect_pass ms h r e at good = record {
    place = rw (e, at.place, key, good) refl;
    trace = rw (e, good, at.trace) refl;
  }
  begin_kind-At raster_pass ms h r e at good = record {
    place = rw (e, at.place, key, good) refl;
    trace = rw (e, good, at.trace) refl;
  }

  refused_kind :
      (k : RenderPassKind) (ms : List Mark) (h : History) (r : Reply)
      → p.kind ≡ k
      → At in_frame ms h
      → r.done ≡ false
      → phase ((begin_call ext window hash p, r) ∷ h) ≡ in_frame
  unfolding begin_call
  refused_kind draw_pass ms h r e at bad = elim (Bool-cases (p.target == window.id)) [
    | inl same ↦ rw (e, same, at.place, bad) refl
    | inr other ↦ rw (e, other, at.place, bad) refl
  ]
  refused_kind mask_pass ms h r e at bad = elim (Bool-cases (p.target == window.id)) [
    | inl same ↦ rw (e, same, at.place, bad) refl
    | inr other ↦ rw (e, other, at.place, bad) refl
  ]
  refused_kind effect_pass ms h r e at bad = rw (e, at.place, key, bad) refl
  refused_kind raster_pass ms h r e at bad = rw (e, at.place, key, bad) refl

-- A pass that has run: it stands on top of `ms`, with what a cache answered.
abbrev pub Ran : FrameResources → ℕ → RenderPass → List Mark → History → Type 0
Ran resources window p ms h =
    (hit : Bool) × At in_frame
      (run_marks resources p hit (opened (opened_target window p) hit ∷ ms)) h

module _ (ext : Extents) (window : WindowTarget) (ui : UiRenderer) (resources : FrameResources)
    (serial : ℕ) where
  begun-Ran :
      (pass hash : ℕ) (p : RenderPass) (ms : List Mark) (h : History)
      → (frame_effect_cache_key hash window.width window.height == 0) ≡ false
      → At in_frame ms h
      → Behind
          (λ _. Ran resources window.id p ms)
          ((call ui (begin_call ext window hash p) >>= begun ext window ui resources serial pass p)
            h)
  begun-Ran pass hash p ms h key at =
      let r = ui.answer h (begin_call ext window hash p) in
      let h' = (begin_call ext window hash p, r) ∷ h in
      let go = λ (b : Bool).
        Behind (λ _. Ran resources window.id p ms)
          ((if b then run_pass ui resources pass p (hit_of p r) else fail pass 0 last_error) h') in
      elim (Bool-cases r.done) [
        | inr bad ↦
            subst go (sym bad) (inl (refused_kind ext window hash p key p.kind ms h r refl at bad))
        | inl good ↦
            let opening = opened (opened_target window.id p) (hit_of p r) ∷ ms in
            subst go (sym good) (
              Behind-map (λ _. At in_frame (run_marks resources p (hit_of p r) opening))
                (λ _. Ran resources window.id p ms) (run_pass ui resources pass p (hit_of p r) h')
                (run_kind-At ui resources pass p p.kind (hit_of p r) opening h' refl
                  (begin_kind-At ext window hash p key p.kind ms h r refl at good))
                (λ _ h'' at'. (hit_of p r, at')))
      ]

  pub execute_pass-Ran :
      (hashes : Hashes) (pass : ℕ) (p : RenderPass) (ms : List Mark) (h : History)
      → At in_frame ms h
      → Behind
          (λ _. Ran resources window.id p ms)
          (execute_pass ext window ui resources serial hashes pass p h)
  unfolding execute_pass
  execute_pass-Ran hashes pass p ms h at =
      let hash = hash_now ext window ui resources serial hashes p h in
      let key =
        frame_effect_cache_key-nonzero (ui.producer_generation h) resources hashes serial p
          window.width window.height in
      bind-Behind (λ _. Ran resources window.id p ms) (λ _. Ran resources window.id p ms)
        (call ui (begin_call ext window hash p) >>= begun ext window ui resources serial pass p)
        (λ _. pure ((p.target, hash) ∷ hashes)) h (begun-Ran pass hash p ms h key at)
        (λ _ h' ran. ran)
