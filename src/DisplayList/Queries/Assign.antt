-- ===== src/DisplayList/Queries/Assign.antt =====
-- `assign_validated` of packages/ui/src/display_list/display_list.cpp: what is in the list behind it.
use mathlib.Core.List.{flatten}
use haxeon.Prelude.{
  ℕ, zero, suc, ◌+◌, ◌*◌, ◌%◌, ◌^◌, ◌≤◌, ◌<◌, ◌≡◌, refl, ap, sym, ◌∙◌, List, [], ◌∷◌, ◌++◌, some,
  arith, take, drop, length, length-append, length-take, drop-append, take-all,
}
use haxeon.Float32.{Arith}
use haxeon.DisplayList.Wire.{Header, read_header}
use haxeon.DisplayList.Commands.{Depths}
use haxeon.DisplayList.Buffer.{DisplayList, contents}
use haxeon.DisplayList.Validate.{
  Verdict, accepted, rejected, unfinished, outset, validate_display_list,
}
use haxeon.DisplayList.Validate.Spec.{Stream, behind}
use haxeon.DisplayList.Validate.Sound.{read_header-append}
use haxeon.DisplayList.Validate.Exact.{validate_display_list-accepts}
use haxeon.DisplayList.Queries.{count_commands, take_over, on_accepted, assign_validated}

module _ (fp : Arith) where
  count_step :
      (fuel count n : ℕ) (rest : List ℕ)
      → 0 < length rest
      → (read_header rest).size ≡ n
      → count_commands (suc fuel) rest count
        ≡ count_commands fuel (drop n rest) ((count + 1) % 2 ^ 32)
  unfolding count_commands
  count_step fuel count n [] h e = absurd (omega arith)
  count_step fuel count n (b ∷ bs) h e = rw e refl

  -- On valid records the loop counts each once.
  count_commands-records :
      (rs : List (List ℕ)) (fuel count : ℕ) (d e : Depths)
      → Stream fp rs d e
      → length (flatten rs) ≤ fuel
      → count + length rs < 2 ^ 32
      → count_commands fuel (flatten rs) count ≡ count + length rs
  unfolding flatten count_commands
  count_commands-records [] zero count d e s h small = omega arith
  count_commands-records [] (suc fuel) count d e s h small = omega arith
  count_commands-records (r ∷ rs) zero count d e (o, v, a, s) h small =
      absurd (omega (arith, length-append r (flatten rs), v.long))
  count_commands-records (r ∷ rs) (suc fuel) count d e (o, v, a, s) h small =
      let rest = flatten rs in
      let n = length-append r rest in
      let size : (read_header (r ++ rest)).size ≡ length r =
        ap (λ (t : Header). t.size) (read_header-append r rest v.long) ∙ v.size in
      let ih =
        count_commands-records rs fuel (count + 1) (behind o d) e s (omega (arith, n, v.long))
          (omega arith) in
      let once : (count + 1) % 2 ^ 32 ≡ count + 1 = omega arith in
      count_step fuel count (length r) (r ++ rest) (omega (arith, n, v.long)) size
      ∙ rw (drop-append r rest, once, ih) (omega arith)

  records_long :
      (rs : List (List ℕ)) (d e : Depths) → Stream fp rs d e → 8 * length rs ≤ length (flatten rs)
  unfolding flatten
  records_long [] d e s = omega arith
  records_long (r ∷ rs) d e (o, v, a, s) =
      omega (arith, length-append r (flatten rs), v.long, records_long rs (behind o d) e s)

  on_accepted-some :
      {A : Type 0} (v : Verdict) (x y : A) → on_accepted v x ≡ some y → (v ≡ accepted) × (x ≡ y)
  on_accepted-some accepted x y e = (refl, cc)
  on_accepted-some (rejected err) x y e = cc
  on_accepted-some unfinished x y e = cc

  whole_take :
      (bytes : List ℕ) (size : ℕ)
      → size ≤ length bytes
      → take size (take size bytes) ≡ take size bytes
  whole_take bytes size h =
      take-all size (take size bytes) (omega (arith, length-take size bytes h))

  -- An assignment of at most 2 ^ 32 - 1 readable bytes that succeeds leaves these bytes in the list;
  -- they are valid records with balanced scopes, and the command count is their number.
  pub assign_validated_lem :
      (bytes : List ℕ) (size : ℕ) (dl dl' : DisplayList)
      → size ≤ length bytes
      → size < 2 ^ 32
      → assign_validated fp (some bytes) size dl ≡ some dl'
      → (contents dl' ≡ take size bytes)
        × (rs : List (List ℕ)) × (flatten rs ≡ contents dl')
        × Stream fp rs outset outset
        × (dl'.command_count ≡ length rs)
  unfolding assign_validated contents
  assign_validated_lem bytes size dl dl' readable small run =
      let (ok_bytes, same) =
        on_accepted-some (validate_display_list fp (some bytes) size) (take_over bytes size dl) dl'
          run in
      let (rs, whole, stream) =
        (validate_display_list-accepts fp bytes size readable small).0 ok_bytes in
      let n = length-take size bytes readable in
      let all : length (flatten rs) ≡ size = ap length whole ∙ n in
      let long = records_long rs outset outset stream in
      let counted =
        count_commands-records rs size 0 outset outset stream (omega (arith, all))
          (omega (arith, all)) in
      rw (← same) (
        whole_take bytes size readable,
        rs,
        whole ∙ sym (whole_take bytes size readable),
        stream,
        omega (arith, rw whole at counted),
      )
