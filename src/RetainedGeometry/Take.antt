-- ===== src/RetainedGeometry/Take.antt =====
-- What `allocate` of packages/ui/src/render/retained_geometry.h takes from the free ranges of a page.
use haxeon.Prelude.{
  ℕ, zero, suc, ◌+◌, ◌-◌, ◌%◌, ◌^◌, ◌<◌, ◌≤◌, ◌≡◌, ◌⊎◌, ◌∙◌, refl, sym, ap, subst, inl, inr, Bool,
  true, false, ◌&&◌, ◌||◌, List, [], ◌∷◌, none, some, arith, ◌==◌, ltb, get_elem?, take,
  if◌then◌else◌, Bool-cases,
}
use haxeon.RetainedGeometry.{Range, page_bytes, aligned, take_range, release_range}
use haxeon.RetainedGeometry.Free.{
  packed, apart, inside, free_at, swap_front, packed_less, release_range-packed,
}

-- No range has `size` bytes.
unfoldable pub all_small : ℕ → List Range → Bool
all_small size [] = true
all_small size (f ∷ free) = ltb f.size size && all_small size free

-- The range `r` of `size` bytes is the front of the first range of `free` that is large enough, and
-- `left` is left.
pub record IsTaken (low size : ℕ) (free : List Range) (r : Range) (left : List Range) : Type 0 where
  pub sized : r.size ≡ size
  pub front :
      (k : ℕ) × (f : Range) × (get_elem? free k ≡ some f)
      × (f.offset ≡ r.offset)
      × (aligned size ≤ f.size)
      × (all_small (aligned size) (take k free) ≡ true)
  pub above : low ≤ r.offset
  pub in_page : r.offset + aligned size ≤ page_bytes
  pub order : packed low left ≡ true
  pub clear : apart r.offset (aligned size) left ≡ true
  pub bytes : (b : ℕ) → free_at b free ≡ (inside r.offset (aligned size) b || free_at b left)

packed-apart :
    (offset size : ℕ) (free : List Range)
    → packed (offset + size) free ≡ true
    → apart offset size free ≡ true
unfolding packed apart
packed-apart offset size [] p = refl
packed-apart offset size (f ∷ free) p =
    ground (
      arith,
      packed-apart offset size free,
      packed_less (f.offset + f.size + 1) (offset + size) free,
    )

front-IsTaken :
    (low size : ℕ) (f : Range) (free : List Range)
    → 0 < aligned size
    → packed low (f ∷ free) ≡ true
    → ltb f.size (aligned size) ≡ false
    → IsTaken low size
        (f ∷ free)
        (record { offset = f.offset; size = size })
        (if f.size - aligned size == 0
          then free
          else record { offset = (f.offset + aligned size) % 2 ^ 32; size = f.size - aligned size }
            ∷ free)
unfolding packed apart free_at all_small
front-IsTaken low size f free some_bytes p fits =
    let behind : packed (f.offset + f.size + 1) free ≡ true = ground arith in
    elim (Bool-cases (f.size - aligned size == 0)) [
      | inl all ↦
          let same : f.size ≡ aligned size = ground arith in
          let ahead : packed (f.offset + aligned size) free ≡ true =
            packed_less (f.offset + f.size + 1) (f.offset + aligned size) free (omega (arith, same))
              behind in
          rw all (record {
            sized = refl;
            front = (zero, f, refl, refl, ground arith, refl);
            above = ground arith;
            in_page = ground arith;
            order = packed_less (f.offset + aligned size) low free (ground arith) ahead;
            clear = packed-apart f.offset (aligned size) free ahead;
            bytes = λ b. ap (λ (n : ℕ). inside f.offset n b || free_at b free) same;
          })
      | inr some_left ↦
          let more : aligned size < f.size = ground arith in
          let low_end : f.offset + f.size ≤ page_bytes = ground arith in
          let no_wrap : (f.offset + aligned size) % 2 ^ 32 ≡ f.offset + aligned size =
            omega (arith, more, low_end) in
          let rest_end : f.offset + aligned size + (f.size - aligned size) ≡ f.offset + f.size =
            omega (arith, more) in
          let ahead : packed (f.offset + aligned size)
                (record { offset = f.offset + aligned size; size = f.size - aligned size } ∷ free)
              ≡ true =
            ground (arith, more, low_end, rest_end) in
          rw (some_left, no_wrap)
            (record {
              sized = refl;
              front = (zero, f, refl, refl, ground arith, refl);
              above = ground arith;
              in_page = ground (arith, more, low_end);
              order =
                  packed_less (f.offset + aligned size) low
                    (record { offset = f.offset + aligned size; size = f.size - aligned size }
                      ∷ free)
                    (ground arith) ahead;
              clear =
                  packed-apart f.offset (aligned size)
                    (record { offset = f.offset + aligned size; size = f.size - aligned size }
                      ∷ free)
                    ahead;
              bytes = λ b. ground (arith, more, rest_end);
            })
    ]

later-IsTaken :
    (low size : ℕ) (f r : Range) (free left : List Range)
    → ltb f.size (aligned size) ≡ true
    → packed low (f ∷ free) ≡ true
    → IsTaken (f.offset + f.size + 1) size free r left
    → IsTaken low size (f ∷ free) r (f ∷ left)
unfolding packed apart free_at all_small
later-IsTaken low size f r free left small p t = record {
  front =
      let (k, first, found, there, fits, others) = t.front in
      (suc k, first, found, there, fits, rw small others);
  sized = t.sized;
  above = ground (arith, t.above);
  in_page = t.in_page;
  order = ground (arith, t.order);
  clear = ground (arith, t.above, t.clear);
  bytes = λ b.
      rw (t.bytes b)
        (swap_front (inside f.offset f.size b) (inside r.offset (aligned size) b) (free_at b left));
}

-- A size from 1 to that of the page, and free ranges in order: what is taken is the front of the first
-- free range that is large enough, and behind it the ranges are in order, clear of what was taken, and the free bytes are the
-- others from before. Nothing is taken only when no range is
-- large enough.
pub take_range-IsTaken :
    (low size : ℕ) (free : List Range)
    → 0 < size
    → size ≤ page_bytes
    → packed low free ≡ true
    → ((r : Range) × (left : List Range) × (take_range size free ≡ some (r, left))
        × IsTaken low size free r left)
      ⊎ ((take_range size free ≡ none) × (all_small (aligned size) free ≡ true))
unfolding take_range all_small packed aligned
take_range-IsTaken low size [] s few p = inr (refl, refl)
take_range-IsTaken low size (f ∷ free) s few p = elim (Bool-cases (ltb f.size (aligned size))) [
  | inr fits ↦
      let some_bytes : 0 < aligned size = omega arith in
      inl (_, _, rw fits refl, front-IsTaken low size f free some_bytes p fits)
  | inl small ↦
      let behind : packed (f.offset + f.size + 1) free ≡ true = ground arith in
      elim (take_range-IsTaken (f.offset + f.size + 1) size free s few behind) [
        | inl (r, left, e, t) ↦
            inl (r, f ∷ left, rw (small, e) refl, later-IsTaken low size f r free left small p t)
        | inr (e, others) ↦ inr (rw (small, e) refl, rw small others)
      ]
]

given_back :
    (size : ℕ) (free left : List Range) (r : Range)
    → 0 < size
    → size ≤ page_bytes
    → IsTaken 0 size free r left
    → (packed 0 (release_range r left) ≡ true)
      × ((b : ℕ) → free_at b (release_range r left) ≡ free_at b free)
given_back size free left r s few t =
    let at_r = ap aligned t.sized in
    let (order, bytes) =
      release_range-packed r left (omega (arith, t.sized)) (omega (arith, at_r, t.in_page))
        (omega (arith, t.sized)) t.order
        (subst (λ (n : ℕ). apart r.offset n left ≡ true) (sym at_r) t.clear) in
    (
      order,
      λ b. bytes b ∙ ap (λ (n : ℕ). inside r.offset n b || free_at b left) at_r ∙ sym (t.bytes b),
    )

-- Taking a size from 1 to that of the page and giving the range back frees the same bytes as before.
pub release-take :
    (size : ℕ) (free left : List Range) (r : Range)
    → 0 < size
    → size ≤ page_bytes
    → packed 0 free ≡ true
    → take_range size free ≡ some (r, left)
    → (packed 0 (release_range r left) ≡ true)
      × ((b : ℕ) → free_at b (release_range r left) ≡ free_at b free)
release-take size free left r s few p e = elim (take_range-IsTaken 0 size free s few p) [
  | inl (r', left', e', t') ↦
      let same_r : r' ≡ r = cc (sym e' ∙ e) in
      let same_left : left' ≡ left = cc (sym e' ∙ e) in
      let t : IsTaken 0 size free r left =
        subst (λ (x : Range). IsTaken 0 size free x left) same_r
          (subst (λ (x : List Range). IsTaken 0 size free r' x) same_left t') in
      given_back size free left r s few t
  | inr (none_left, small) ↦ absurd (cc (sym none_left ∙ e))
]
