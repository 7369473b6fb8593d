-- ===== src/Programs/Echo/Ranges.antt =====
-- The addresses of arrays.
use win_io.Base.{
  ℕ, zero, suc, ◌+◌, ◌≤◌, ◌<◌, ◌≡◌, refl, ap, arith, true, false, ◌&&◌, leb, ltb, ◌∷◌, map, ◌⊎◌,
}
use win_io.Os.{Ptr}
use win_io.Queue.Chain.{has}
use win_io.Sockets.Transfer.Consume.{range}
use win_io.Sockets.Stream.Memory.{all_distinct}

pub has-range : (p q n : ℕ) → has p (range q n) ≡ (leb q p && ltb p (q + n))
has-range p q zero = ground arith
has-range p q (suc n) = ground (arith, has-range p (q + 1) n)

pub range-distinct : (p n : ℕ) → all_distinct (range p n) ≡ true
range-distinct p zero = refl
range-distinct p (suc n) = ground (arith, has-range p (p + 1) n, range-distinct (p + 1) n)

-- Two arrays of the same size that do not overlap.
abbrev pub Apart : (p q size : ℕ) → Type 0
Apart p q size = (p + size ≤ q) ⊎ (q + size ≤ p)

map_same :
    (before after : Ptr → ℕ) (p n : ℕ)
    → ((r : Ptr) → p ≤ r → r < p + n → after r ≡ before r)
    → map after (range p n) ≡ map before (range p n)
map_same before after p zero same = refl
map_same before after p (suc n) same = rw (same p (omega arith) (omega arith)) (
    ap (◌∷◌ (before p))
      (map_same before after (p + 1) n (λ r from to. same r (omega arith) (omega arith))))

pub range-elsewhere :
    (before after : Ptr → ℕ) (p q size : ℕ)
    → Apart p q size
    → ((r : Ptr) → has r (range q size) ≡ false → after r ≡ before r)
    → map after (range p size) ≡ map before (range p size)
range-elsewhere before after p q size apart same =
    map_same before after p size
      λ r from to. same r (ground (arith, has-range r q size, apart, from, to))
