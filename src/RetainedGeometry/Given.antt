-- ===== src/RetainedGeometry/Given.antt =====
-- `allocate` of packages/ui/src/render/retained_geometry.h ends, and keeps the ranges apart and the pages within the budget.
use haxeon.RetainedGeometry.Oldest.{entries_slices}
use haxeon.Prelude.{
  ℕ, zero, suc, ◌+◌, ◌<◌, ◌≤◌, ◌≡◌, ◌∙◌, refl, sym, subst, inl, inr, Bool, true, false, List, [],
  ◌∷◌, ◌++◌, Option, none, some, ◌==◌, ltb, leb, if◌then◌else◌, length, arith, Bool-cases,
  Option-cases, length-append,
}
use haxeon.RetainedGeometry.{page_bytes, aligned, take_range}
use haxeon.RetainedGeometry.Cache.{
  Slice, Page, Cache, new_page, evict, filled, place_in, size_bytes, allocate_from,
}
use haxeon.RetainedGeometry.Owners.{total, owns, stray, free_in}
use haxeon.RetainedGeometry.Placing.{place_in-IsPlaced}
use haxeon.RetainedGeometry.Kept.{Keeps, evict-Evicts, new_page-IsSound}

abbrev is_placed : Option (Slice × List Page) → Bool
is_placed none = false
is_placed (some x) = true

-- A new page has room for everything up to its size.
place_in-new :
    (k usage : ℕ) (payload : List ℕ) (pages : List Page)
    → length payload ≤ page_bytes
    → is_placed (place_in k usage payload (pages ++ new_page usage ∷ [])) ≡ true
unfolding place_in take_range aligned
place_in-new k usage payload [] few =
    let own : (usage == usage) ≡ true = ground arith in
    let fits : ltb page_bytes (aligned (length payload)) ≡ false = ground arith in
    rw (place_in, own, fits) refl
place_in-new k usage payload (p ∷ pages) few =
    let found = place_in-new (k + 1) usage payload pages few in
    elim (Option-cases (
      if p.usage == usage then filled k payload p (take_range (length payload) p.free) else none)) [
        | inr ((s', p'), here) ↦ rw (place_in, here) refl
        | inl nothing ↦
            elim (Option-cases (place_in (k + 1) usage payload (pages ++ new_page usage ∷ []))) [
              | inl nowhere ↦ absurd (cc (rw nowhere at found))
              | inr ((s', left), there) ↦ rw (place_in, nothing, there) refl
            ]
      ]

-- The pending ranges with the one that was given.
abbrev pub with_given : Option Slice → List Slice → List Slice
with_given none pending = pending
with_given (some s) pending = s ∷ pending

placed-Keeps :
    (cap usage : ℕ) (payload : List ℕ) (pending : List Slice) (g : Cache) (s : Slice)
    (left : List Page)
    → 0 < length payload
    → length payload ≤ page_bytes
    → Keeps cap pending g
    → place_in 0 usage payload g.pages ≡ some (s, left)
    → Keeps cap (s ∷ pending) (record g { pages = left })
placed-Keeps cap usage payload pending g s left some_bytes few k h =
    let t = place_in-IsPlaced 0 usage payload g.pages left s some_bytes few k.sound.ordered h in
    record {
      sound = record {
        ordered = t.ordered;
        placed =
            let fits : s.range.offset + aligned s.range.size ≤ page_bytes = rw t.sized t.in_page in
            let low : s.page < length g.pages = omega (arith, t.below) in
            let own : stray (length g.pages) s ≡ 0 = ground (arith, fits, low, t.sized) in
            subst (λ (n : ℕ). stray n s + total (stray n) (pending ++ entries_slices g.entries) ≡ 0)
              (sym t.same_pages) (omega (arith, own, k.sound.placed));
        exclusive = λ i b.
            let moved : owns i b s + free_in i b left ≤ free_in i b g.pages =
              subst (λ (n : ℕ). owns n b s + free_in i b left ≤ free_in i b g.pages) (omega arith)
                (t.bytes i b) in
            omega (arith, moved, k.sound.exclusive i b);
      };
      budget = k.budget;
      within = rw t.same_pages k.within;
    }

-- What `allocate` comes to: it ends, and the ranges stay apart, with the one that it gave.
pub record Allocates (cap : ℕ) (pending : List Slice) (g : Cache) (r : Option Slice) (g' : Cache)
    : Type 0 where
  pub keeps : Keeps cap (with_given r pending) g'
  pub same_frame : g'.frame ≡ g.frame
  pub fewer : length g'.entries ≤ length g.entries

-- Room in a page ends the loop.
allocate_now :
    (fuel usage : ℕ) (payload : List ℕ) (g : Cache) (s : Slice) (left : List Page)
    → 0 < fuel
    → place_in 0 usage payload g.pages ≡ some (s, left)
    → allocate_from fuel usage payload g ≡ some (some s, record g { pages = left })
unfolding allocate_from
allocate_now zero usage payload g s left some_fuel here = absurd (omega arith)
allocate_now (suc fuel) usage payload g s left some_fuel here = rw (allocate_from, here) refl

paged-Keeps :
    (cap usage : ℕ) (pending : List Slice) (g : Cache)
    → leb (size_bytes g + page_bytes) g.budget ≡ true
    → Keeps cap pending g
    → Keeps cap pending (record g { pages = g.pages ++ new_page usage ∷ [] })
paged-Keeps cap usage pending g room k = record {
  sound = new_page-IsSound g.pages (pending ++ entries_slices g.entries) usage k.sound;
  budget = k.budget;
  within =
      let longer = length-append g.pages (new_page usage ∷ []) in
      let fits : size_bytes g + page_bytes ≤ g.budget = ground arith in
      omega (arith, longer, fits, k.budget);
}

pub allocate_from-Allocates :
    (cap fuel usage : ℕ) (payload : List ℕ) (pending : List Slice) (g : Cache)
    → length g.entries + 2 ≤ fuel
    → 0 < length payload
    → length payload ≤ page_bytes
    → Keeps cap pending g
    → (r : Option Slice) × (g' : Cache) × (allocate_from fuel usage payload g ≡ some (r, g'))
      × Allocates cap pending g r g'
unfolding allocate_from
allocate_from-Allocates cap zero usage payload pending g enough some_bytes few k =
    absurd (omega arith)
allocate_from-Allocates cap (suc fuel) usage payload pending g enough some_bytes few k =
    elim (Option-cases (place_in 0 usage payload g.pages)) [
      | inr ((s, left), here) ↦ (
        some s,
        record g { pages = left },
        rw (allocate_from, here) refl,
        record {
          keeps = placed-Keeps cap usage payload pending g s left some_bytes few k here;
          same_frame = refl;
          fewer = omega arith;
        },
      )
      | inl nowhere ↦ elim (Bool-cases (leb (size_bytes g + page_bytes) g.budget)) [
        | inl room ↦
            let wider : Cache = record g { pages = g.pages ++ new_page usage ∷ [] } in
            let k' = paged-Keeps cap usage pending g room k in
            elim (Option-cases (place_in 0 usage payload (g.pages ++ new_page usage ∷ []))) [
              | inl nowhere' ↦
                  let there = place_in-new 0 usage payload g.pages few in
                  absurd (cc (rw nowhere' at there))
              | inr ((s, left), here) ↦ (
                some s,
                record wider { pages = left },
                rw (allocate_from, nowhere, room)
                    (allocate_now fuel usage payload wider s left (omega (arith, enough)) here),
                record {
                  keeps =
                      placed-Keeps cap usage payload pending wider s left some_bytes few k' here;
                  same_frame = refl;
                  fewer = omega arith;
                },
              )
            ]
        | inr tight ↦ elim (Option-cases (evict g)) [
          | inl none_left ↦ (
            none,
            record g { full = true },
            rw (allocate_from, nowhere, tight, none_left) refl,
            record {
              keeps = record { sound = k.sound; budget = k.budget; within = k.within };
              same_frame = refl;
              fewer = omega arith;
            },
          )
          | inr (g', gone) ↦
              let out = evict-Evicts cap pending g g' k gone in
              let (r, g2, e, done) =
                allocate_from-Allocates cap fuel usage payload pending g'
                  (omega (arith, out.shorter, enough)) some_bytes few out.keeps in
              (
                r,
                g2,
                rw (allocate_from, nowhere, tight, gone) e,
                record {
                  keeps = done.keeps;
                  same_frame = done.same_frame ∙ out.same_frame;
                  fewer = omega (arith, done.fewer, out.shorter);
                },
              )
        ]
      ]
    ]
