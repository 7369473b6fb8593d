-- ===== src/File/Sectors/Bounds.antt =====
-- How rounded values lie to the values, and the sectors of a request to its bytes.
use native.Mathlib.Nat.{div-add-mod', mod-lt, mod-eq_of_lt, mul-mod_left, add-mod_right, add-zero}
use win_io.Base.{
  ℕ, ◌+◌, ◌*◌, ◌/◌, ◌%◌, ◌^◌, ◌≤◌, ◌<◌, ◌≡◌, inl, inr, arith, ltb, if◌then◌else◌, Bool-cases,
}
use win_io.File.Sectors.{sector_size, rounddown, roundup, from_any_offset_and_size}

module _ (value multiple : ℕ) (pos : 0 < multiple) (room : value + multiple ≤ 2 ^ 64) where
  parts : (value / multiple * multiple + value % multiple ≡ value) × (value % multiple < multiple)
  parts = (div-add-mod' value multiple, mod-lt value pos)

  no_wrap :
      roundup value multiple
      ≡ value / multiple * multiple + (if ltb 0 (value % multiple) then multiple else 0)
  unfolding roundup
  no_wrap = mod-eq_of_lt (ground (arith, parts.0, parts.1))

  roundup-mod : roundup value multiple % multiple ≡ 0
  roundup-mod = rw no_wrap (elim (Bool-cases (ltb 0 (value % multiple))) [
    | inl more ↦ rw (more, add-mod_right) (mul-mod_left (value / multiple) multiple)
    | inr exact ↦ rw (exact, add-zero) (mul-mod_left (value / multiple) multiple)
  ])

-- For every positive multiple: rounding down gives a multiple that is at most the value, by less
-- than one multiple; rounding up, where that does not overflow 64 bits, gives a multiple that is at
-- least the value, by less than one multiple.
pub roundup-rounddown :
    (value multiple : ℕ)
    → 0 < multiple
    → value + multiple ≤ 2 ^ 64
    → (rounddown value multiple % multiple ≡ 0)
      × (rounddown value multiple ≤ value)
      × (value < rounddown value multiple + multiple)
      × (roundup value multiple % multiple ≡ 0)
      × (value ≤ roundup value multiple)
      × (roundup value multiple < value + multiple)
unfolding rounddown
roundup-rounddown value multiple pos room =
    let (whole, below) = parts value multiple pos room in
    let up = no_wrap value multiple pos room in
    (
      mul-mod_left (value / multiple) multiple,
      omega arith,
      omega arith,
      roundup-mod value multiple pos room,
      ground arith,
      ground arith,
    )

-- If the end of the request rounds up within 64 bits, the sectors that are read start and end on
-- sector boundaries, contain every requested byte, and reach over it by less than a sector on
-- either side.
pub from_any_offset_and_size-covers :
    (o s : ℕ)
    → o + s + sector_size ≤ 2 ^ 64
    → let io = from_any_offset_and_size o s in
      (io.offset % sector_size ≡ 0)
      × (io.size % sector_size ≡ 0)
      × (io.offset ≤ o)
      × (o < io.offset + sector_size)
      × (o + s ≤ io.offset + io.size)
      × (io.offset + io.size < o + s + sector_size)
unfolding from_any_offset_and_size
from_any_offset_and_size-covers o s room = ground arith
