-- ===== src/Executor/Succeeds.antt =====
-- When `execute_render_plan` of packages/ui/src/render/render_plan_executor.cpp reports success.
use haxeon.Prelude.{
  ℕ, ◌+◌, ◌≡◌, inl, inr, refl, sym, subst, Bool, true, false, ◌&&◌, List, [], ◌∷◌, Option, none,
  some, Outcome, ok, err, if◌then◌else◌, Option-cases,
}
use haxeon.RenderPlan.Types.{
  RenderCommand, RenderPass, RenderPassKind, draw_pass, effect_pass, mask_pass, raster_pass,
}
use haxeon.Compositor.Hash.{Hashes}
use haxeon.FrameResources.Frames.{FrameResources}
use haxeon.Executor.Calls.{
  Action, History, UiRenderer, RenderExecutionError, Call, Drawing, set_scissor,
  select_prepared_command, draw, filter, apply_mask, end_pass, last_error, pure, fail, call, ◌>>=◌,
  ◌>>◌,
}
use haxeon.Executor.Surfaces.{WindowTarget, Extents}
use haxeon.Executor.Passes.{
  drawing_of, draw_commands, try_in_pass, finish_pass, try_drawing, try_scissor, mask_image,
  apply_mask_to, run_pass, effect_filtering, begin_call, begun, hit_of, execute_pass, hash_now,
}

-- The step ends with a value, whatever was called before.
abbrev pub succeeded : {A : Type 0} → Outcome RenderExecutionError A × History → Bool
succeeded (ok a, h) = true
succeeded (err e, h) = false

abbrev pub IsTotal : {A : Type 0} → Action A → Type 0
IsTotal m = (h : History) → succeeded (m h) ≡ true

pub ok_of :
    (x : Outcome RenderExecutionError (Unit {0}) × History)
    → succeeded {A = Unit} x ≡ true
    → x.0 ≡ ok tt
ok_of (ok tt, h) e = refl
ok_of (err problem, h) e = cc

after_value :
    {A B : Type 0} (f : A → Action B) (x : Outcome RenderExecutionError A × History)
    → succeeded {A = A} x ≡ true
    → ((a : A) → IsTotal (f a))
    → succeeded {A = B} (elim x.0 [ ok a ↦ f a x.1 | err e ↦ (err e, x.1) ]) ≡ true
after_value f (ok a, h) first next = next a h
after_value f (err e, h) first next = cc

pub bind-IsTotal :
    {A B : Type 0} (m : Action A) (f : A → Action B)
    → IsTotal m
    → ((a : A) → IsTotal (f a))
    → IsTotal (m >>= f)
bind-IsTotal m f first next h = after_value f (m h) (first h) next

-- Every resource of a command is bound, and every image of a mask.
unfoldable pub commands_bound : FrameResources → List RenderCommand → Bool
commands_bound resources [] = true
commands_bound resources (c ∷ cs) = elim (drawing_of resources c) [
  | none ↦ false
  | some d ↦ commands_bound resources cs
]

abbrev pub has_mask_image : FrameResources → RenderPass → Bool
has_mask_image resources p = elim (mask_image resources p) [ none ↦ false | some picture ↦ true ]

unfoldable pub passes_bound : FrameResources → List RenderPass → Bool
passes_bound resources [] = true
passes_bound resources (p ∷ ps) =
    commands_bound resources p.commands && has_mask_image resources p && passes_bound resources ps

module _ (ui : UiRenderer) (willing : (h : History) (c : Call) → (ui.answer h c).done ≡ true) where
  -- A step that fails only if the call does.
  pub checked :
      (c : Call) (refused : Action Unit)
      → IsTotal (call ui c >>= λ reply. if reply.done then pure tt else refused)
  checked c refused h =
      subst
        (λ (b : Bool). succeeded ((if b then pure tt else refused) ((c, ui.answer h c) ∷ h)) ≡ true)
        (sym (willing h c)) refl

  draw_commands-IsTotal :
      (resources : FrameResources) (pass command : ℕ) (cs : List RenderCommand)
      → commands_bound resources cs ≡ true
      → IsTotal (draw_commands ui resources pass command cs)
  unfolding draw_commands commands_bound
  draw_commands-IsTotal resources pass command [] b =
      checked end_pass (fail pass command last_error)
  draw_commands-IsTotal resources pass command (c ∷ cs) b =
      elim (Option-cases (drawing_of resources c)) [
        | inl missing ↦ absurd (cc (rw (missing, commands_bound) at b))
        | inr (d, bound) ↦
            bind-IsTotal
              (call ui (select_prepared_command pass command)
                >> try_scissor ui c pass command
                >> try_drawing ui (drawing_of resources c) pass command)
              (λ _. draw_commands ui resources pass (command + 1) cs)
              (bind-IsTotal
                (call ui (select_prepared_command pass command) >> try_scissor ui c pass command)
                (λ _. try_drawing ui (drawing_of resources c) pass command)
                (bind-IsTotal (call ui (select_prepared_command pass command))
                  (λ _. try_scissor ui c pass command) (λ h. refl)
                  (λ _.
                    checked
                      (set_scissor c.has_scissor
                        (c.scissor_x, c.scissor_y, c.scissor_width, c.scissor_height))
                      (fail pass command last_error)))
                (λ _.
                  subst (λ (x : Option Drawing). IsTotal (try_drawing ui x pass command))
                    (sym bound)
                    (checked (draw d) (call ui end_pass >> fail pass command last_error))))
              (λ _.
                draw_commands-IsTotal resources pass (command + 1) cs
                  (rw (bound, commands_bound) at b))
      ]

  mask-IsTotal :
      (p : RenderPass) (pass : ℕ) (image : Option (Option ℕ))
      → (elim image [ none ↦ false | some picture ↦ true ]) ≡ true
      → IsTotal (apply_mask_to ui p pass image)
  mask-IsTotal p pass none b = cc
  mask-IsTotal p pass (some picture) b =
      bind-IsTotal (try_in_pass ui (filter (apply_mask p.input_target p.mask picture)) pass 0)
        (λ _. finish_pass ui pass 0)
        (checked (filter (apply_mask p.input_target p.mask picture))
          (call ui end_pass >> fail pass 0 last_error))
        (λ _. checked end_pass (fail pass 0 last_error))

  effect-IsTotal :
      (p : RenderPass) (pass : ℕ)
      → IsTotal (try_in_pass ui (filter (effect_filtering p)) pass 0 >> finish_pass ui pass 0)
  effect-IsTotal p pass =
      bind-IsTotal (try_in_pass ui (filter (effect_filtering p)) pass 0)
        (λ _. finish_pass ui pass 0)
        (checked (filter (effect_filtering p)) (call ui end_pass >> fail pass 0 last_error))
        (λ _. checked end_pass (fail pass 0 last_error))

  run_kind-IsTotal :
      (resources : FrameResources) (pass : ℕ) (p : RenderPass) (k : RenderPassKind) (hit : Bool)
      → p.kind ≡ k
      → commands_bound resources p.commands ≡ true
      → has_mask_image resources p ≡ true
      → IsTotal (run_pass ui resources pass p hit)
  unfolding run_pass
  run_kind-IsTotal resources pass p draw_pass hit e b m h =
      rw (run_pass, e) (draw_commands-IsTotal resources pass 0 p.commands b h)
  run_kind-IsTotal resources pass p raster_pass true e b m h = rw (run_pass, e) refl
  run_kind-IsTotal resources pass p raster_pass false e b m h =
      rw (run_pass, e) (draw_commands-IsTotal resources pass 0 p.commands b h)
  run_kind-IsTotal resources pass p effect_pass true e b m h = rw (run_pass, e) refl
  run_kind-IsTotal resources pass p effect_pass false e b m h =
      rw (run_pass, e) (effect-IsTotal p pass h)
  run_kind-IsTotal resources pass p mask_pass hit e b m h =
      rw (run_pass, e) (mask-IsTotal p pass (mask_image resources p) m h)

  module _ (ext : Extents) (window : WindowTarget) (resources : FrameResources) (serial : ℕ) where
    pub execute_pass-IsTotal :
        (hashes : Hashes) (pass : ℕ) (p : RenderPass)
        → commands_bound resources p.commands ≡ true
        → has_mask_image resources p ≡ true
        → IsTotal (execute_pass ext window ui resources serial hashes pass p)
    unfolding execute_pass
    execute_pass-IsTotal hashes pass p b m h =
        let hash = hash_now ext window ui resources serial hashes p h in
        let c = begin_call ext window hash p in
        bind-IsTotal (call ui c >>= begun ext window ui resources serial pass p)
          (λ _. pure ((p.target, hash) ∷ hashes))
          (λ h'.
            let r = ui.answer h' c in
            subst
              (λ (x : Bool).
                succeeded {A = Unit} (
                  (if x then run_pass ui resources pass p (hit_of p r) else fail pass 0 last_error)
                    ((c, r) ∷ h'))
                ≡ true)
              (sym (willing h' c))
              (run_kind-IsTotal resources pass p p.kind (hit_of p r) refl b m ((c, r) ∷ h')))
          (λ _ h'. refl) h
