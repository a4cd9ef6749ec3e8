-- ===== src/RetainedGeometry/Free.antt =====
-- The free ranges of a page of packages/ui/src/render/retained_geometry.h.
use haxeon.Prelude.{
  ℕ, ◌+◌, ◌<◌, ◌≤◌, ◌≡◌, refl, inl, inr, Bool, true, false, ◌&&◌, ◌||◌, List, [], ◌∷◌, arith, ◌==◌,
  ltb, leb, Bool-cases,
}
use haxeon.RetainedGeometry.{
  Range, page_bytes, aligned, end_of, joined, join_next, starts_before, insert_range, release_range,
}

-- In order from `low` on, with a gap between two ranges, in the page.
unfoldable pub packed : ℕ → List Range → Bool
packed low [] = true
packed low (f ∷ free) =
    leb low f.offset
    && ltb 0 f.size
    && leb (f.offset + f.size) page_bytes
    && packed (f.offset + f.size + 1) free

-- No range shares a byte with the `size` bytes from `offset` on.
unfoldable pub apart : ℕ → ℕ → List Range → Bool
apart offset size [] = true
apart offset size (f ∷ free) =
    (leb (f.offset + f.size) offset || leb (offset + size) f.offset) && apart offset size free

pub packed_less :
    (low lower : ℕ) (free : List Range)
    → lower ≤ low
    → packed low free ≡ true
    → packed lower free ≡ true
unfolding packed
packed_less low lower [] h p = refl
packed_less low lower (f ∷ free) h p = ground arith

join_next-packed :
    (low : ℕ) (r : Range) (free : List Range)
    → low ≤ r.offset
    → 0 < r.size
    → r.offset + r.size ≤ page_bytes
    → packed (r.offset + r.size) free ≡ true
    → packed low (join_next r free) ≡ true
unfolding packed
join_next-packed low r [] h s e p = ground arith
join_next-packed low r (f ∷ free) h s e p = ground arith

apart_ahead :
    (r : Range) (free : List Range)
    → 0 < r.size
    → starts_before free r.offset ≡ false
    → packed 0 free ≡ true
    → apart r.offset r.size free ≡ true
    → packed (r.offset + r.size) free ≡ true
unfolding packed apart
apart_ahead r [] s b p a = refl
apart_ahead r (f ∷ free) s b p a = ground arith

starts_before-room :
    (low offset : ℕ) (free : List Range)
    → starts_before free offset ≡ true
    → packed low free ≡ true
    → low ≤ offset
unfolding packed
starts_before-room low offset [] b p = cc
starts_before-room low offset (f ∷ free) b p = ground arith

insert_range-packed :
    (low : ℕ) (r : Range) (free : List Range)
    → low ≤ r.offset
    → 0 < r.size
    → r.offset + r.size ≤ page_bytes
    → packed low free ≡ true
    → apart r.offset r.size free ≡ true
    → packed low (insert_range r free) ≡ true
unfolding packed apart
insert_range-packed low r [] h s e p a = ground arith
insert_range-packed low r (f ∷ free) h s e p a =
    let spread : (low ≤ f.offset)
        × (0 < f.size)
        × (f.offset + f.size ≤ page_bytes)
        × (packed (f.offset + f.size + 1) free ≡ true) =
      (ground arith, ground arith, ground arith, ground arith) in
    let beside : apart r.offset r.size free ≡ true = ground arith in
    let all_free = packed_less (f.offset + f.size + 1) 0 free (omega arith) spread.3 in
    elim (Bool-cases (ltb f.offset r.offset)) [
      | inr ahead ↦ rw ahead (
          join_next-packed low r (f ∷ free) h s e
            (apart_ahead r (f ∷ free) s ahead (packed_less low 0 (f ∷ free) (omega arith) p) a))
      | inl behind ↦
          let clear : f.offset + f.size ≤ r.offset = ground arith in
          elim (Bool-cases (starts_before free r.offset)) [
            | inl on ↦
                let room = starts_before-room (f.offset + f.size + 1) r.offset free on spread.3 in
                let rest =
                  insert_range-packed (f.offset + f.size + 1) r free room s e spread.3 beside in
                rw (behind, on) (ground arith)
            | inr there ↦
                let after = apart_ahead r free s there all_free beside in
                elim (Bool-cases (end_of f == r.offset)) [
                  | inl touching ↦
                      rw (behind, there, touching)
                        (join_next-packed low (joined f r) free (ground arith) (ground arith)
                          (ground arith) (ground arith))
                  | inr gap ↦
                      let next =
                        join_next-packed (f.offset + f.size + 1) r free (ground arith) s e after in
                      rw (behind, there, gap) (ground arith)
                ]
          ]
    ]

-- The byte is one of the `size` bytes from `offset` on.
abbrev pub inside : ℕ → ℕ → ℕ → Bool
inside offset size b = leb offset b && ltb b (offset + size)

-- The byte is in some range.
unfoldable pub free_at : ℕ → List Range → Bool
free_at b [] = false
free_at b (f ∷ free) = inside f.offset f.size b || free_at b free

join_next-free_at :
    (r : Range) (free : List Range) (b : ℕ)
    → 0 < r.size
    → r.offset + r.size ≤ page_bytes
    → packed (r.offset + r.size) free ≡ true
    → free_at b (join_next r free) ≡ (inside r.offset r.size b || free_at b free)
unfolding free_at packed
join_next-free_at r [] b s e p = refl
join_next-free_at r (f ∷ free) b s e p = ground arith

pub swap_front : (x y z : Bool) → (x || (y || z)) ≡ (y || (x || z))
swap_front true true z = refl
swap_front true false z = refl
swap_front false true z = refl
swap_front false false z = refl

insert_range-free_at :
    (low : ℕ) (r : Range) (free : List Range) (b : ℕ)
    → low ≤ r.offset
    → 0 < r.size
    → r.offset + r.size ≤ page_bytes
    → packed low free ≡ true
    → apart r.offset r.size free ≡ true
    → free_at b (insert_range r free) ≡ (inside r.offset r.size b || free_at b free)
unfolding packed apart free_at
insert_range-free_at low r [] b h s e p a = refl
insert_range-free_at low r (f ∷ free) b h s e p a =
    let spread : (low ≤ f.offset)
        × (0 < f.size)
        × (f.offset + f.size ≤ page_bytes)
        × (packed (f.offset + f.size + 1) free ≡ true) =
      (ground arith, ground arith, ground arith, ground arith) in
    let beside : apart r.offset r.size free ≡ true = ground arith in
    let all_free = packed_less (f.offset + f.size + 1) 0 free (omega arith) spread.3 in
    elim (Bool-cases (ltb f.offset r.offset)) [
      | inr ahead ↦ rw ahead (
          join_next-free_at r (f ∷ free) b s e
            (apart_ahead r (f ∷ free) s ahead (packed_less low 0 (f ∷ free) (omega arith) p) a))
      | inl behind ↦
          let clear : f.offset + f.size ≤ r.offset = ground arith in
          elim (Bool-cases (starts_before free r.offset)) [
            | inl on ↦
                let room = starts_before-room (f.offset + f.size + 1) r.offset free on spread.3 in
                let rest =
                  insert_range-free_at (f.offset + f.size + 1) r free b room s e spread.3 beside in
                rw (behind, on, rest)
                  (swap_front (inside f.offset f.size b) (inside r.offset r.size b)
                    (free_at b free))
            | inr there ↦
                let after = apart_ahead r free s there all_free beside in
                elim (Bool-cases (end_of f == r.offset)) [
                  | inl touching ↦
                      let one =
                        join_next-free_at (joined f r) free b (ground arith) (ground arith)
                          (ground arith) in
                      rw (behind, there, touching, one) (ground arith)
                  | inr gap ↦
                      rw (behind, there, gap, join_next-free_at r free b s e after)
                        (swap_front (inside f.offset f.size b) (inside r.offset r.size b)
                          (free_at b free))
                ]
          ]
    ]

-- A range of the page with bytes in it, none of them free, goes back: the free ranges stay in order,
-- with a gap between two, and the free bytes are those from before and those of the range, rounded up
-- to words.
pub release_range-packed :
    (r : Range) (free : List Range)
    → 0 < r.size
    → r.offset + aligned r.size ≤ page_bytes
    → r.size ≤ page_bytes
    → packed 0 free ≡ true
    → apart r.offset (aligned r.size) free ≡ true
    → (packed 0 (release_range r free) ≡ true)
      × ((b : ℕ)
          → free_at b (release_range r free)
            ≡ (inside r.offset (aligned r.size) b || free_at b free))
unfolding release_range aligned
release_range-packed r free s e few p a =
    let whole : Range = record { offset = r.offset; size = aligned r.size } in
    let some_bytes : 0 < whole.size = omega arith in
    (
      insert_range-packed 0 whole free (omega arith) some_bytes e p a,
      λ b. insert_range-free_at 0 whole free b (omega arith) some_bytes e p a,
    )
