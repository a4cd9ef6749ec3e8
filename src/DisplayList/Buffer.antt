-- ===== src/DisplayList/Buffer.antt =====
-- The storage of the class `DisplayList` in packages/ui/src/display_list/display_list.cpp: a vector
-- of which the first `size_` bytes are in use, grown by doubling.
pub mod Laws
use haxeon.Prelude.{
  ℕ, zero, suc, ◌+◌, ◌-◌, ◌*◌, ◌/◌, ◌%◌, ◌^◌, List, ◌++◌, Option, none, some, ltb, leb, ◌==◌,
  if◌then◌else◌, take, drop, length, replicate,
}
use mathlib.Core.Option

pub record DisplayList : Type 0 where
  pub bytes : List ℕ
  pub size : ℕ
  pub growth_count : ℕ
  pub command_count : ℕ

-- `std::numeric_limits<size_t>::max()`
abbrev pub size_max : ℕ
size_max = 2 ^ 64 - 1

-- `std::vector::resize`
unfoldable pub resize : List ℕ → ℕ → List ℕ
resize bytes n = take n bytes ++ replicate (n - length bytes) 0

-- The constructor.
unfoldable pub new : ℕ → DisplayList
unfolding resize
new initial_capacity = record {
  bytes = replicate initial_capacity 0;
  size = 0;
  growth_count = 0;
  command_count = 0;
}

unfoldable pub reset : DisplayList → DisplayList
reset dl = record dl { size = 0; command_count = 0 }

-- The `while (capacity < required)` of `reserve_record`. A capacity that is not zero passes every
-- `size_t` within 64 doublings, the fuel.
unfoldable pub grow : ℕ → ℕ → ℕ → ℕ
grow zero capacity required = capacity
grow (suc fuel) capacity required =
    let doubled = grow fuel (capacity * 2) required in
    if ltb capacity required
    then (if ltb (size_max / 2) capacity then required else doubled)
    else capacity

-- `none` where the code returns false, and leaves the list alone.
unfoldable pub reserve_record : DisplayList → ℕ → Option DisplayList
reserve_record dl record_size =
    let required = dl.size + record_size in
    let capacity = length dl.bytes in
    if ltb (size_max - dl.size) record_size
    then none
    else if leb required capacity
    then some dl
    else some (record dl {
      bytes = resize dl.bytes (grow 64 (if capacity == 0 then 64 else capacity) required);
      growth_count = (dl.growth_count + 1) % 2 ^ 32;
    })

-- `std::memcpy` into the vector.
unfoldable pub write_at : List ℕ → ℕ → List ℕ → List ℕ
write_at bytes offset source = take offset bytes ++ (source ++ drop (offset + length source) bytes)

-- The code behind a reserve that succeeded.
unfoldable pub store : List ℕ → DisplayList → DisplayList
unfolding write_at
store source dl = record dl {
  bytes = write_at dl.bytes dl.size source;
  size = dl.size + length source;
  command_count = (dl.command_count + 1) % 2 ^ 32;
}

-- `append(value)`, and the end of `append_layer`, whose copies stand one behind the other.
unfoldable pub append : DisplayList → List ℕ → Option DisplayList
unfolding reserve_record store
append dl source = Option.map (store source) (reserve_record dl (length source))

-- The bytes in use.
unfoldable pub contents : DisplayList → List ℕ
contents dl = take dl.size dl.bytes
