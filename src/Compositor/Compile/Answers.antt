-- ===== src/Compositor/Compile/Answers.antt =====
-- What `Compositor::compile` (packages/ui/src/compositor/compositor.cpp) returns.
use mathlib.Core.List.{flatten}
use haxeon.Prelude.{
  ℕ, suc, ◌^◌, ◌≤◌, ◌<◌, ◌≡◌, ◌⊎◌, ◌∙◌, inl, inr, refl, sym, ap, true, false, List, [], ◌∷◌, ◌++◌,
  Option, none, some, arith, Outcome, ok, err, take, length, length-append, length-take, Bool-cases,
}
use haxeon.Float32.{Arith}
use haxeon.ResourceId.{is_resource_id, render_target}
use haxeon.DisplayList.Wire.{Opcode}
use haxeon.DisplayList.Buffer.{DisplayList, contents}
use haxeon.DisplayList.Commands.{Depths}
use haxeon.DisplayList.Validate.{
  Verdict, accepted, rejected, unfinished, ValidationError, outset, validate_display_list,
}
use haxeon.DisplayList.Validate.Spec.{IsRecord, Stream, behind}
use haxeon.DisplayList.Validate.Sound.{Explains}
use haxeon.DisplayList.Validate.Exact.{validate_display_list-Explains}
use haxeon.RenderPlan.Types.{RenderPlan, default_descriptor}
use haxeon.Compositor.Types.{CompositorError, invalid_input}
use haxeon.Compositor.Passes.{Work, empty_plan}
use haxeon.Compositor.Plan.{Good}
use haxeon.Compositor.Chain.Sound.{continue_pass-Better}
use haxeon.Compositor.Step.Settled.{Settled}
use haxeon.Compositor.Step.Sound.{May}
use haxeon.Compositor.Compile.{
  Run, finished, stopped, out_of_fuel, initial_slot, start, compile_from, result_of, when_valid,
  compile,
}
use haxeon.Compositor.Compile.Ends.{Ends, compile_from-Ends}
use haxeon.Compositor.Compile.Wired.{IsWired, keyed-IsWired}

pub start-Settled : (main : ℕ) → Settled main (start main) outset
unfolding start
start-Settled main =
    let w : Work = record { plan = empty_plan; next_slot = initial_slot main } in
    let empty : Good w = record { inputs = refl; consumers = refl; declared = refl } in
    let (better, _, here, last) = continue_pass-Better main default_descriptor w empty in
    record {
      good = better.good;
      last = last;
      here = here;
      nested = refl;
      states = refl;
      layers = refl;
    }

module _ (fp : Arith) (dl : DisplayList) (main : ℕ) where
  -- A list with a plan, or with the first reason why it has none.
  abbrev pub Answers : Option (Outcome CompositorError RenderPlan) → Type 0
  Answers none = ⊥
  Answers (some (ok plan)) =
      (is_resource_id main render_target ≡ true)
      × (validate_display_list fp (some dl.bytes) dl.size ≡ accepted)
      × IsWired main plan
  Answers (some (err e)) =
      ((is_resource_id main render_target ≡ false)
        × (e ≡ record { command_index = 0; message = invalid_input }))
      ⊎ ((v : ValidationError) × (validate_display_list fp (some dl.bytes) dl.size ≡ rejected v)
          × (e ≡ record { command_index = v.command_index; message = invalid_input }))
      ⊎ ((before : List (List ℕ)) × (r : List ℕ) × (after : List (List ℕ)) × (o : Opcode) × (flatten
              (before ++ r ∷ after)
            ≡ contents dl)
          × IsRecord fp o r
          × (e.command_index ≡ length before)
          × May o e.message)

  -- A record has at least eight bytes.
  records_count :
      (rs : List (List ℕ)) (d e : Depths) → Stream fp rs d e → length rs ≤ length (flatten rs)
  unfolding flatten
  records_count [] d e s = omega arith
  records_count (r ∷ rs) d e (o, v, a, s) =
      omega (arith, length-append r (flatten rs), v.long, records_count rs (behind o d) e s)

  run-Answers :
      (rs : List (List ℕ)) (run : Run)
      → is_resource_id main render_target ≡ true
      → validate_display_list fp (some dl.bytes) dl.size ≡ accepted
      → flatten rs ≡ contents dl
      → length rs < 2 ^ 32
      → Ends fp main rs 0 run
      → Answers (result_of fp run)
  run-Answers rs (finished m) kind valid whole small s = (kind, valid, keyed-IsWired fp main m s)
  run-Answers rs (stopped e) kind valid whole small (before, r, after, o, split, v, at, may) = inr (
      inr (
        before,
        r,
        after,
        o,
        ap flatten (sym split) ∙ whole,
        v,
        omega (arith, at, ap length split, length-append before (r ∷ after)),
        may,
      ))
  run-Answers rs out_of_fuel kind valid whole small h = h

  module _ (readable : dl.size ≤ length dl.bytes) (small : dl.size < 2 ^ 32) where
    verdict-Answers :
        (v : Verdict)
        → is_resource_id main render_target ≡ true
        → validate_display_list fp (some dl.bytes) dl.size ≡ v
        → Explains fp (take dl.size dl.bytes) 0 0 outset v
        → Answers (
            when_valid fp v
              (result_of fp (compile_from fp (suc dl.size) (contents dl) 0 (start main))))
    unfolding contents
    verdict-Answers accepted kind valid (rs, whole, stream) =
        let count : length (flatten rs) ≡ dl.size =
          ap length whole ∙ length-take dl.size dl.bytes readable in
        let ends =
          compile_from-Ends fp main rs (suc dl.size) 0 outset (start main) (omega (arith, count))
            (omega arith) stream (start-Settled main) in
        run-Answers rs _ kind valid whole
          (omega (arith, count, records_count rs outset outset stream)) (rw whole at ends)
    verdict-Answers (rejected e) kind valid h = inr (inl (e, valid, refl))
    verdict-Answers unfinished kind valid h = absurd h

    pub compile-Answers : Answers (compile fp dl main)
    unfolding compile
    compile-Answers = elim (Bool-cases (is_resource_id main render_target)) [
      | inr other ↦ rw other (inl (other, refl))
      | inl kind ↦ rw kind (
          verdict-Answers (validate_display_list fp (some dl.bytes) dl.size) kind refl
            (validate_display_list-Explains fp dl.bytes dl.size readable small))
    ]
