-- ===== src/Compositor/Compile/Ends.antt =====
-- The loop of `Compositor::compile` (packages/ui/src/compositor/compositor.cpp) over valid records.
use mathlib.Core.List.{flatten}
use haxeon.Prelude.{
  ℕ, zero, suc, ◌+◌, ◌%◌, ◌^◌, ◌<◌, ◌≡◌, ◌⊎◌, ◌∙◌, inl, inr, refl, ap, List, [], ◌∷◌, ◌++◌, Option,
  some, arith, ok, err, Outcome-cases, take, drop, length, length-append, take-append, drop-append,
}
use haxeon.Float32.{Arith}
use haxeon.DisplayList.Wire.{Opcode, begin_layer, Header, read_header, fields, opcode_of}
use haxeon.DisplayList.Commands.{Depths}
use haxeon.DisplayList.Validate.{outset}
use haxeon.DisplayList.Validate.Spec.{behind, IsRecord, Stream, well_formed}
use haxeon.DisplayList.Validate.Sound.{read_header-append}
use haxeon.Compositor.Types.{LayerCommandValues, CompositorMessage}
use haxeon.Compositor.Reading.{read_layer}
use haxeon.Compositor.Reading.Valid.{read_layer-valid}
use haxeon.Compositor.Step.{Machine, step}
use haxeon.Compositor.Step.Settled.{Settled}
use haxeon.Compositor.Step.Sound.{May, step-Proceeds}
use haxeon.Compositor.Compile.{
  Run, finished, stopped, out_of_fuel, dispatch, step_record, compile_from,
}

module _ (fp : Arith) (main : ℕ) where
  IsRecord-version :
      (o : Opcode) (r : List ℕ)
      → IsRecord fp o r
      → ((read_header r).version ≡ 1) ⊎ ((read_header r).version ≡ 2)
  IsRecord-version o r v = elim v.version [ inl one ↦ inl one | inr (_, two) ↦ inr two ]

  readable_layer :
      (o : Opcode) (r : List ℕ)
      → IsRecord fp o r
      → o ≡ begin_layer
      → (v : LayerCommandValues) × (read_layer (read_header r) (fields r) ≡ some v)
  unfolding well_formed
  readable_layer o r v e =
      read_layer-valid (read_header r) (fields r) (IsRecord-version o r v) (rw e at v.formed)

  -- A record in front of the bytes is stepped by itself.
  step_record-append :
      (o : Opcode) (r rest : List ℕ) (m : Machine)
      → IsRecord fp o r
      → (step_record fp (r ++ rest) m ≡ step fp o (read_header r) (fields r) m)
        × ((read_header (r ++ rest)).size ≡ length r)
  unfolding step_record
  step_record-append o r rest m v =
      let front = read_header-append r rest v.long in
      let h = read_header r in
      (
        ap (λ (g : Header). dispatch fp (opcode_of g.opcode) g (fields (take g.size (r ++ rest))) m)
              front
            ∙ ap (λ (c : Option Opcode). dispatch fp c h (fields (take h.size (r ++ rest))) m)
                v.known
            ∙ ap (λ (k : ℕ). step fp o h (fields (take k (r ++ rest))) m) v.size
            ∙ ap (λ (t : List ℕ). step fp o h (fields t) m) (take-append r rest),
        ap (λ (g : Header). g.size) front ∙ v.size,
      )

  -- What the run over the records `rs` ends with, `index` records in.
  abbrev pub Ends : List (List ℕ) → ℕ → Run → Type 0
  Ends rs index (finished m) = Settled main m outset
  Ends rs index (stopped e) =
      (before : List (List ℕ)) × (r : List ℕ) × (after : List (List ℕ)) × (o : Opcode) × (rs
        ≡ before ++ r ∷ after)
      × IsRecord fp o r
      × (e.command_index ≡ (index + length before) % 2 ^ 32)
      × May o e.message
  Ends rs index out_of_fuel = ⊥

  Ends-next :
      (r : List ℕ) (rs : List (List ℕ)) (index : ℕ) (run : Run)
      → Ends rs ((index + 1) % 2 ^ 32) run
      → Ends (r ∷ rs) index run
  Ends-next r rs index (finished m) s = s
  Ends-next r rs index (stopped e) (before, bad, after, o, split, v, at, may) =
      (r ∷ before, bad, after, o, ap (λ t. r ∷ t) split, v, omega arith, may)
  Ends-next r rs index out_of_fuel h = h

  -- One round of the loop.
  compile_from-ok :
      (fuel : ℕ) (rest : List ℕ) (index : ℕ) (m m' : Machine)
      → 0 < length rest
      → step_record fp rest m ≡ ok m'
      → compile_from fp (suc fuel) rest index m
        ≡ compile_from fp fuel (drop (read_header rest).size rest) ((index + 1) % 2 ^ 32) m'
  unfolding compile_from
  compile_from-ok fuel [] index m m' h e = absurd (omega arith)
  compile_from-ok fuel (b ∷ bs) index m m' h e = rw (e, compile_from) refl

  compile_from-err :
      (fuel : ℕ) (rest : List ℕ) (index : ℕ) (m : Machine) (message : CompositorMessage)
      → 0 < length rest
      → step_record fp rest m ≡ err message
      → compile_from fp (suc fuel) rest index m
        ≡ stopped (record { command_index = index; message = message })
  unfolding compile_from
  compile_from-err fuel [] index m message h e = absurd (omega arith)
  compile_from-err fuel (b ∷ bs) index m message h e = rw (e, compile_from) refl

  pub compile_from-Ends :
      (rs : List (List ℕ)) (fuel index : ℕ) (d : Depths) (m : Machine)
      → length (flatten rs) < fuel
      → index < 2 ^ 32
      → Stream fp rs d outset
      → Settled main m d
      → Ends rs index (compile_from fp fuel (flatten rs) index m)
  unfolding flatten compile_from
  compile_from-Ends rs zero index d m enough small stream s = absurd (omega arith)
  compile_from-Ends [] (suc fuel) index d m enough small stream s = rw stream at s
  compile_from-Ends (r ∷ rs) (suc fuel) index d m enough small (o, v, a, stream) s =
      let (one, size) = step_record-append o r (flatten rs) m v in
      let proceeds =
        step-Proceeds fp main o (read_header r) (fields r) m d (readable_layer o r v) a s in
      let long : 0 < length (r ++ flatten rs) =
        omega (arith, length-append r (flatten rs), v.long) in
      let behind_it = ap (λ (k : ℕ). drop k (r ++ flatten rs)) size ∙ drop-append r (flatten rs) in
      elim (Outcome-cases (step fp o (read_header r) (fields r) m)) [
        | inl (m', e) ↦
            let s' : Settled main m' (behind o d) = rw e at proceeds in
            rw (compile_from-ok fuel (r ++ flatten rs) index m m' long (one ∙ e), behind_it)
              (Ends-next r rs index _ (
                compile_from-Ends rs fuel ((index + 1) % 2 ^ 32) (behind o d) m'
                  (omega (arith, length-append r (flatten rs), v.long)) (omega arith) stream s'))
        | inr (message, e) ↦
            rw (compile_from-err fuel (r ++ flatten rs) index m message long (one ∙ e))
              ([], r, rs, o, refl, v, omega arith, rw e at proceeds)
      ]
