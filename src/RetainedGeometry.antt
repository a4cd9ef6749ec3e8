-- ===== src/RetainedGeometry.antt =====
-- packages/ui/src/render/retained_geometry.h: the free ranges of one page, which `allocate` takes from
-- and `release` gives back to. The bytes of the page are not kept here. `lower_bound` is a walk, which
-- ends where the search does when the offsets are in order.
pub mod Given
pub mod Oldest
pub mod Free
pub mod Take
pub mod Cache
pub mod Entries
pub mod Owners
pub mod Placing
pub mod Kept
pub mod Rooms
pub mod Runs
pub mod Safe
use haxeon.Prelude.{
  ℕ, ◌+◌, ◌-◌, ◌*◌, ◌/◌, ◌%◌, ◌^◌, Bool, true, false, List, [], ◌∷◌, Option, none, some, ◌==◌, ltb,
  if◌then◌else◌,
}

-- `Range` without its page.
pub record Range : Type 0 where
  pub offset : ℕ
  pub size : ℕ

abbrev pub page_bytes : ℕ
page_bytes = 64 * 1024

-- `(size + 3) & ~3`, cut to a `uint32_t`.
unfoldable pub aligned : ℕ → ℕ
aligned size = (size + 3) % 2 ^ 32 / 4 * 4

abbrev pub taken : Range → Option (Range × List Range) → Option (Range × List Range)
taken f none = none
taken f (some (range, free)) = some (range, f ∷ free)

-- The first range that is large enough gives up its front.
unfoldable pub take_range : ℕ → List Range → Option (Range × List Range)
take_range size [] = none
take_range size (f ∷ free) =
    let later = take_range size free in
    let a = aligned size in
    if ltb f.size a
    then taken f later
    else some (
      record { offset = f.offset; size = size },
      if f.size - a == 0
          then free
          else record { offset = (f.offset + a) % 2 ^ 32; size = f.size - a } ∷ free,
    )

abbrev pub end_of : Range → ℕ
end_of r = (r.offset + r.size) % 2 ^ 32

abbrev pub joined : Range → Range → Range
joined a b = record { offset = a.offset; size = (a.size + b.size) % 2 ^ 32 }

-- The inserted range, with the range behind it.
abbrev pub join_next : Range → List Range → List Range
join_next r [] = r ∷ []
join_next r (f ∷ free) = if end_of r == f.offset then joined r f ∷ free else r ∷ f ∷ free

-- `lower_bound` has not arrived.
abbrev pub starts_before : List Range → ℕ → Bool
starts_before [] offset = false
starts_before (f ∷ free) offset = ltb f.offset offset

abbrev pub insert_range : Range → List Range → List Range
insert_range r [] = r ∷ []
insert_range r (f ∷ free) =
    let later = insert_range r free in
    if ltb f.offset r.offset
    then if starts_before free r.offset
      then f ∷ later
      else if end_of f == r.offset
      then join_next (joined f r) free
      else f ∷ join_next r free
    else join_next r (f ∷ free)

unfoldable pub release_range : Range → List Range → List Range
release_range r free = insert_range (record { offset = r.offset; size = aligned r.size }) free
