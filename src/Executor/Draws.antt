-- ===== src/Executor/Draws.antt =====
-- The commands of a pass in packages/ui/src/render/render_plan_executor.cpp: they are drawn in order,
-- and the pass ends, unless a scissor fails.
use haxeon.Prelude.{ℕ, ◌+◌, inl, inr, refl, List, [], ◌∷◌, Option, none, some, Bool-cases}
use haxeon.RenderPlan.Types.{RenderCommand}
use haxeon.FrameResources.Frames.{FrameResources}
use haxeon.Executor.Calls.{
  History, UiRenderer, Drawing, Filtering, draw, filter, end_pass, set_scissor,
  select_prepared_command, call, ◌>>◌,
}
use haxeon.Executor.Passes.{
  drawing_of, draw_commands, try_in_pass, try_drawing, try_scissor, finish_pass,
}
use haxeon.Executor.Protocol.{in_frame, in_pass, Mark, drew, filtered, At, Behind, bind-Behind}

-- The marks of drawing commands, on top of `ms`.
abbrev pub drawn_marks : FrameResources → List RenderCommand → List Mark → List Mark
drawn_marks resources [] ms = ms
drawn_marks resources (c ∷ cs) ms = drawn_marks resources cs (drew (drawing_of resources c) ∷ ms)

module _ (ui : UiRenderer) (ms : List Mark) (pass command : ℕ) (h : History)
    (at : At in_pass ms h) where
  pub finish_pass-At : Behind (λ _. At in_frame ms) (finish_pass ui pass command h)
  finish_pass-At = elim (Bool-cases (ui.answer h end_pass).done) [
    | inl good ↦ rw good (record { place = rw at.place refl; trace = at.trace })
    | inr bad ↦ rw bad (inl (rw at.place refl))
  ]

  pub draw-At :
      (d : Drawing)
      → Behind (λ _. At in_pass (drew (some d) ∷ ms)) (try_in_pass ui (draw d) pass command h)
  draw-At d = elim (Bool-cases (ui.answer h (draw d)).done) [
    | inl good ↦ rw good (record { place = rw at.place refl; trace = rw at.trace refl })
    | inr bad ↦ rw bad (inl (rw at.place refl))
  ]

  pub filter-At :
      (f : Filtering)
      → Behind (λ _. At in_pass (filtered f ∷ ms)) (try_in_pass ui (filter f) pass command h)
  filter-At f = elim (Bool-cases (ui.answer h (filter f)).done) [
    | inl good ↦ rw good (record { place = rw at.place refl; trace = rw at.trace refl })
    | inr bad ↦ rw bad (inl (rw at.place refl))
  ]

  pub try_drawing-At :
      (d : Option Drawing)
      → Behind (λ _. At in_pass (drew d ∷ ms)) (try_drawing ui d pass command h)
  try_drawing-At none = inl (rw at.place refl)
  try_drawing-At (some d) = draw-At d

  pub select-At : Behind (λ _. At in_pass ms) (call ui (select_prepared_command pass command) h)
  select-At = record { place = rw at.place refl; trace = at.trace }

  pub try_scissor-At :
      (c : RenderCommand) → Behind (λ _. At in_pass ms) (try_scissor ui c pass command h)
  try_scissor-At c =
      elim (Bool-cases
        (ui.answer h (
          set_scissor c.has_scissor
            (c.scissor_x, c.scissor_y, c.scissor_width, c.scissor_height))).done) [
              | inl good ↦ rw good (record { place = rw at.place refl; trace = at.trace })
              | inr bad ↦ rw bad (inr (rw at.place refl))
            ]

pub draw_commands-At :
    (ui : UiRenderer) (resources : FrameResources) (pass command : ℕ) (cs : List RenderCommand)
    (ms : List Mark) (h : History)
    → At in_pass ms h
    → Behind
        (λ _. At in_frame (drawn_marks resources cs ms))
        (draw_commands ui resources pass command cs h)
unfolding draw_commands
draw_commands-At ui resources pass command [] ms h at = finish_pass-At ui ms pass command h at
draw_commands-At ui resources pass command (c ∷ cs) ms h at =
    bind-Behind (λ _. At in_pass (drew (drawing_of resources c) ∷ ms))
      (λ _. At in_frame (drawn_marks resources (c ∷ cs) ms))
      (call ui (select_prepared_command pass command)
        >> try_scissor ui c pass command
        >> try_drawing ui (drawing_of resources c) pass command)
      (λ _. draw_commands ui resources pass (command + 1) cs) h
      (bind-Behind (λ _. At in_pass ms) (λ _. At in_pass (drew (drawing_of resources c) ∷ ms))
        (call ui (select_prepared_command pass command) >> try_scissor ui c pass command)
        (λ _. try_drawing ui (drawing_of resources c) pass command) h
        (try_scissor-At ui ms pass command
          ((
            select_prepared_command pass command,
            ui.answer h (select_prepared_command pass command),
          )
            ∷ h)
          (select-At ui ms pass command h at) c)
        (λ _ h' at'. try_drawing-At ui ms pass command h' at' (drawing_of resources c)))
      (λ _ h' at'.
        draw_commands-At ui resources pass (command + 1) cs (drew (drawing_of resources c) ∷ ms) h'
          at')
