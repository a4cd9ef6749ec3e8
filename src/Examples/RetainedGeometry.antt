-- ===== src/Examples/RetainedGeometry.antt =====
-- Concrete free ranges of a page of packages/ui/src/render/retained_geometry.h.
use haxeon.Prelude.{
  ℕ, ◌*◌, ◌^◌, ◌≤◌, length, replicate, ◌≡◌, ◌⊎◌, refl, true, ◌||◌, List, [], ◌∷◌, some, none, arith,
}
use haxeon.RetainedGeometry.Cache.{GeometryMesh, Cache, new_cache}
use haxeon.RetainedGeometry.Owners.{IsSound}
use haxeon.RetainedGeometry.Oldest.{entries_slices}
use haxeon.RetainedGeometry.Safe.{
  GeometryCall, beginning, finding, admitting, inserting, perform_all, perform_all-IsSound,
}
use haxeon.RetainedGeometry.{Range, page_bytes, aligned, take_range, release_range}
use haxeon.RetainedGeometry.Free.{packed, apart, inside, free_at, release_range-packed}
use haxeon.RetainedGeometry.Take.{IsTaken, all_small, take_range-IsTaken, release-take}

-- Two ranges with room for a third between them.
abbrev around : List Range
around = record { offset = 0; size = 8 } ∷ record { offset = 16; size = 8 } ∷ []

-- Five bytes, which are two words, from 8 on.
abbrev between : Range
between = record { offset = 8; size = 5 }

release_range-packed_example :
    (packed 0 (release_range between around) ≡ true)
    × ((b : ℕ)
        → free_at b (release_range between around) ≡ (inside 8 (aligned 5) b || free_at b around))
unfolding packed apart aligned
release_range-packed_example =
    release_range-packed between around (omega arith) (omega arith) (omega arith) refl refl

take_range-IsTaken_example :
    ((r : Range) × (left : List Range) × (take_range 5 around ≡ some (r, left))
      × IsTaken 0 5 around r left)
    ⊎ ((take_range 5 around ≡ none) × (all_small (aligned 5) around ≡ true))
unfolding packed
take_range-IsTaken_example = take_range-IsTaken 0 5 around (omega arith) (omega arith) refl

-- What three bytes leave of the two ranges.
abbrev rest : List Range
rest = record { offset = 4; size = 4 } ∷ record { offset = 16; size = 8 } ∷ []

abbrev front : Range
front = record { offset = 0; size = 3 }

release-take_example :
    (packed 0 (release_range front rest) ≡ true)
    × ((b : ℕ) → free_at b (release_range front rest) ≡ free_at b around)
unfolding packed take_range aligned
release-take_example = release-take 3 around rest front (omega arith) (omega arith) refl refl

-- One triangle, which is asked for in two frames and then kept.
abbrev triangle : GeometryMesh
triangle = record {
  pipeline = 1;
  sampler = 0;
  image = 0;
  atlas = (0, 0);
  stride = 4;
  vertices = replicate 12 1;
  vertex_uniforms = [];
  fragment_uniforms = [];
  indices = 0 ∷ 1 ∷ 2 ∷ [];
}

abbrev frames : List GeometryCall
frames =
    beginning 1
    ∷ finding (7 ∷ [])
    ∷ beginning 2
    ∷ finding (7 ∷ [])
    ∷ admitting (7 ∷ [])
    ∷ inserting (7 ∷ []) (triangle ∷ [])
    ∷ finding (7 ∷ [])
    ∷ []

perform_all-IsSound_example :
    (g : Cache) × (perform_all 1 2 frames (new_cache (2 ^ 17)) ≡ some g)
    × IsSound g.pages (entries_slices g.entries)
    × (length g.pages * page_bytes ≤ 2 ^ 17)
perform_all-IsSound_example = perform_all-IsSound 1 2 (2 ^ 17) frames
