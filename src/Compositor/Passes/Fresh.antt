-- ===== src/Compositor/Passes/Fresh.antt =====
-- The handles of `allocate_transient_target` (packages/ui/src/compositor/compositor.cpp).
use haxeon.Prelude.{
  ℕ, zero, suc, ◌+◌, ◌-◌, ◌%◌, ◌^◌, ◌<◌, ◌≤◌, ◌≡◌, ◌≢◌, ◌∙◌, refl, sym, true, arith,
}
use haxeon.ResourceId.{render_target, make_resource_id, is_resource_id}
use haxeon.Compositor.Passes.{Work, first_slot, taken_slot, allocate}

-- The state behind `n` allocations.
abbrev pub allocations : ℕ → Work → Work
allocations zero w = w
allocations (suc n) w = allocations n (allocate w).1

-- The handle of the allocation number `n`, from 0.
abbrev pub target_number : ℕ → Work → ℕ
target_number n w = (allocate (allocations n w)).0

-- The slots go round in the upper half.
allocations_slot :
    (n : ℕ) (w : Work)
    → first_slot ≤ taken_slot w.next_slot
    → taken_slot w.next_slot < 2 ^ 16
    → taken_slot (allocations n w).next_slot
      ≡ first_slot + (taken_slot w.next_slot - first_slot + n) % 2 ^ 15
unfolding allocate
allocations_slot zero w low high = omega arith
allocations_slot (suc n) w low high =
    let w' = (allocate w).1 in
    let turn : taken_slot w'.next_slot
        ≡ first_slot + (taken_slot w.next_slot - first_slot + 1) % 2 ^ 15 =
      ground arith in
    allocations_slot n w' (omega (arith, turn)) (omega (arith, turn)) ∙ omega (arith, turn)

made_apart :
    (a b : ℕ)
    → 0 < a
    → a < 2 ^ 16
    → 0 < b
    → b < 2 ^ 16
    → a ≢ b
    → make_resource_id render_target 1 a ≢ make_resource_id render_target 1 b
unfolding make_resource_id
made_apart a b la ha lb hb apart same = absurd (ground arith)

slot_apart :
    (s i j : ℕ)
    → i < j
    → j < i + 2 ^ 15
    → first_slot + (s + i) % 2 ^ 15 ≢ first_slot + (s + j) % 2 ^ 15
slot_apart s i j before near same = absurd (omega arith)

target_number_made :
    (n : ℕ) (w : Work)
    → target_number n w ≡ make_resource_id render_target 1 (taken_slot (allocations n w).next_slot)
unfolding allocate
target_number_made n w = refl

made_high :
    (s main : ℕ)
    → first_slot ≤ s
    → s < 2 ^ 16
    → main % 2 ^ 16 < first_slot
    → (is_resource_id (make_resource_id render_target 1 s) render_target ≡ true)
      × (make_resource_id render_target 1 s ≢ main)
unfolding make_resource_id is_resource_id
made_high s main low high below = (ground arith, λ same. absurd (ground arith))

-- When the next slot is 0 or in the upper half, two allocations of any 2 ^ 15 in turn give different
-- handles. Each of them is a render target, and is not a main target with a slot in the lower half.
pub target_number_apart :
    (w : Work) (main i j : ℕ)
    → first_slot ≤ taken_slot w.next_slot
    → taken_slot w.next_slot < 2 ^ 16
    → main % 2 ^ 16 < first_slot
    → i < j
    → j < i + 2 ^ 15
    → (target_number i w ≢ target_number j w)
      × (is_resource_id (target_number i w) render_target ≡ true)
      × (target_number i w ≢ main)
target_number_apart w main i j low high below before near =
    let slot = λ (n : ℕ). taken_slot (allocations n w).next_slot in
    let at_i = allocations_slot i w low high in
    let at_j = allocations_slot j w low high in
    let other : slot i ≢ slot j = λ same.
      slot_apart (taken_slot w.next_slot - first_slot) i j before near (sym at_i ∙ same ∙ at_j) in
    let low_i : first_slot ≤ slot i = omega (arith, at_i) in
    let high_i : slot i < 2 ^ 16 = omega (arith, at_i) in
    let low_j : first_slot ≤ slot j = omega (arith, at_j) in
    let high_j : slot j < 2 ^ 16 = omega (arith, at_j) in
    let (kind, own) = made_high (slot i) main low_i high_i below in
    let apart =
      made_apart (slot i) (slot j) (omega (arith, low_i)) high_i (omega (arith, low_j)) high_j
        other in
    rw (target_number_made i w, target_number_made j w) (apart, kind, own)
