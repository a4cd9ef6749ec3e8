-- ===== src/LayoutIds/Walk.antt =====
-- The probing of packages/ui/src/layout/layout_id_index.h.
use native.Mathlib.Nat.{mod-add-mod}
use haxeon.Prelude.{
  ℕ, zero, suc, ◌+◌, ◌%◌, ◌<◌, ◌≡◌, ◌≢◌, ◌∙◌, refl, sym, ap, inl, inr, Bool, true, ◌||◌, List, [],
  ◌∷◌, some, arith, ◌==◌, if◌then◌else◌, get_or, set, length, Bool-cases,
}
use haxeon.LayoutIds.{Entry, blank_entry, missing, entry_at, walk, find_from}

-- A slot that stops the probing for `id`.
abbrev pub stops : List Entry → ℕ → ℕ → Bool
stops es id slot = (entry_at es slot).id == 0 || (entry_at es slot).id == id

pub walk-stops :
    (fuel active : ℕ) (es : List Entry) (id slot s : ℕ)
    → walk fuel active es id slot ≡ some s
    → stops es id s ≡ true
unfolding walk
walk-stops zero active es id slot s e = cc
walk-stops (suc fuel) active es id slot s e = elim (Bool-cases (stops es id slot)) [
  | inl here ↦ let same : slot ≡ s = cc (rw (here, walk) at e) in rw same at here
  | inr other ↦ walk-stops fuel active es id ((slot + 1) % active) s (rw (other, walk) at e)
]

pub walk_low :
    (fuel active : ℕ) (es : List Entry) (id slot s : ℕ)
    → slot < active
    → walk fuel active es id slot ≡ some s
    → s < active
unfolding walk
walk_low zero active es id slot s low e = cc
walk_low (suc fuel) active es id slot s low e = elim (Bool-cases (stops es id slot)) [
  | inl here ↦ let same : slot ≡ s = cc (rw (here, walk) at e) in omega arith
  | inr other ↦
      walk_low fuel active es id ((slot + 1) % active) s (grind arith) (rw (other, walk) at e)
]

one_ahead :
    (active slot k : ℕ)
    → slot < active
    → ((slot + 1) % active + k) % active ≡ (slot + suc k) % active
one_ahead active slot k low =
    let sum : slot + 1 + k ≡ slot + suc k = omega arith in
    mod-add-mod (slot + 1) active k ∙ ap (λ (t : ℕ). t % active) sum

-- An empty slot `k` steps ahead ends the probing.
pub walk_ends :
    (fuel active : ℕ) (es : List Entry) (id slot k : ℕ)
    → k < fuel
    → slot < active
    → (entry_at es ((slot + k) % active)).id ≡ 0
    → (s : ℕ) × (walk fuel active es id slot ≡ some s)
unfolding walk
walk_ends zero active es id slot k few low empty = absurd (omega arith)
walk_ends (suc fuel) active es id slot zero few low empty =
    let same : (slot + 0) % active ≡ slot = grind arith in
    let here : (entry_at es slot).id ≡ 0 = rw same at empty in (slot, ground arith)
walk_ends (suc fuel) active es id slot (suc k) few low empty =
    elim (Bool-cases (stops es id slot)) [
      | inl here ↦ (slot, rw (here, walk) refl)
      | inr other ↦
          let (s, e) =
            walk_ends fuel active es id ((slot + 1) % active) k (omega arith) (grind arith)
              (rw (one_ahead active slot k low) empty) in
          (s, rw (other, walk) e)
    ]

pub find_from-walk :
    (fuel active : ℕ) (es : List Entry) (id slot s : ℕ)
    → walk fuel active es id slot ≡ some s
    → find_from fuel active es id slot
      ≡ some (if (entry_at es s).id == 0 then missing else (entry_at es s).index)
unfolding walk find_from
find_from-walk zero active es id slot s e = cc
find_from-walk (suc fuel) active es id slot s e = elim (Bool-cases (stops es id slot)) [
  | inl here ↦ let same : slot ≡ s = cc (rw (here, walk) at e) in rw (← same) (ground arith)
  | inr other ↦
      let rest = find_from-walk fuel active es id ((slot + 1) % active) s (rw (other, walk) at e) in
      ground arith
]

pub get_or-set_same :
    (es : List Entry) (s : ℕ) (v d : Entry) → s < length es → get_or (set es s v) s d ≡ v
get_or-set_same [] s v d low = absurd (omega arith)
get_or-set_same (e ∷ es) zero v d low = refl
get_or-set_same (e ∷ es) (suc s) v d low = get_or-set_same es s v d (omega arith)

pub get_or-set_other :
    (es : List Entry) (s k : ℕ) (v d : Entry) → k ≢ s → get_or (set es s v) k d ≡ get_or es k d
get_or-set_other [] s k v d ne = refl
get_or-set_other (e ∷ es) zero zero v d ne = absurd (ne refl)
get_or-set_other (e ∷ es) zero (suc k) v d ne = refl
get_or-set_other (e ∷ es) (suc s) zero v d ne = refl
get_or-set_other (e ∷ es) (suc s) (suc k) v d ne = get_or-set_other es s k v d (omega (arith, ne))

-- A slot that stops `id` with its own entry is still found behind a write to an empty slot.
pub walk-set :
    (fuel active : ℕ) (es : List Entry) (id slot s z : ℕ) (v : Entry)
    → walk fuel active es id slot ≡ some s
    → (entry_at es s).id ≢ 0
    → (entry_at es z).id ≡ 0
    → walk fuel active (set es z v) id slot ≡ some s
unfolding walk
walk-set zero active es id slot s z v e own empty = cc
walk-set (suc fuel) active es id slot s z v e own empty = elim (Bool-cases (stops es id slot)) [
  | inl here ↦
      let same : slot ≡ s = cc (rw (here, walk) at e) in
      let apart : slot ≢ z = λ h. own (ap (λ (k : ℕ). (entry_at es k).id) (sym same ∙ h) ∙ empty) in
      rw (get_or-set_other es z slot v blank_entry apart, here, walk) (ap some same)
  | inr other ↦
      let apart : slot ≢ z = λ h.
        let at_z : stops es id z ≡ true = ground arith in
        cc (sym other ∙ ap (stops es id) h ∙ at_z) in
      rw (get_or-set_other es z slot v blank_entry apart, other, walk)
        (walk-set fuel active es id ((slot + 1) % active) s z v (rw (other, walk) at e) own empty)
]

-- What is written where the probing stops is found there.
pub walk-new :
    (fuel active : ℕ) (es : List Entry) (id slot s index : ℕ)
    → walk fuel active es id slot ≡ some s
    → s < length es
    → walk fuel active (set es s (record { id = id; index = index })) id slot ≡ some s
unfolding walk
walk-new zero active es id slot s index e low = cc
walk-new (suc fuel) active es id slot s index e low = elim (Bool-cases (stops es id slot)) [
  | inl here ↦
      let same : slot ≡ s = cc (rw (here, walk) at e) in
      rw (same, get_or-set_same es s (record { id = id; index = index }) blank_entry low)
        (ground arith)
  | inr other ↦
      let stop = walk-stops (suc fuel) active es id slot s e in
      let apart : slot ≢ s = λ h. cc (sym other ∙ ap (stops es id) h ∙ stop) in
      rw
        (
          get_or-set_other es s slot (record { id = id; index = index }) blank_entry apart,
          other,
          walk,
        )
        (walk-new fuel active es id ((slot + 1) % active) s index (rw (other, walk) at e) low)
]
