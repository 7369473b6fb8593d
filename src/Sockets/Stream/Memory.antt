-- ===== src/Sockets/Stream/Memory.antt =====
-- Memory that the bytes of a stream are written to, at distinct addresses.
use win_io.Base.{
  ℕ, ◌≡◌, refl, ap, ◌∙◌, arith, Bool, true, false, not, ◌&&◌, List, [], ◌∷◌, ◌++◌, map, length,
  ◌==◌, if◌then◌else◌,
}
use win_io.Os.{Ptr}
use win_io.Queue.Chain.{has, has-append, has-append_eq-false}
use win_io.Sockets.Stream.{store}

abbrev pub all_distinct : List Ptr → Bool
all_distinct [] = true
all_distinct (p ∷ ps) = not (has p ps) && all_distinct ps

pub all_distinct-append :
    (ps qs : List Ptr) → all_distinct (ps ++ qs) ≡ true → all_distinct ps ≡ true
all_distinct-append [] qs distinct = refl
all_distinct-append (p ∷ ps) qs distinct =
    ground (arith, distinct, all_distinct-append ps qs, has-append p ps qs)

pub store_elsewhere :
    (p : Ptr) (ps : List Ptr) (bytes : List ℕ) (memory : Ptr → ℕ)
    → has p ps ≡ false
    → store ps bytes memory p ≡ memory p
store_elsewhere p [] bytes memory out = refl
store_elsewhere p (q ∷ ps) [] memory out = refl
store_elsewhere p (q ∷ ps) (b ∷ bytes) memory out =
    store_elsewhere p ps bytes (λ r. if r == q then b else memory r) (ground (arith, out))
    ∙ ground (arith, out)

pub map-store :
    (ps : List Ptr) (bytes : List ℕ) (memory : Ptr → ℕ)
    → all_distinct ps ≡ true
    → length ps ≡ length bytes
    → map (store ps bytes memory) ps ≡ bytes
map-store [] [] memory distinct same = refl
map-store [] (b ∷ bytes) memory distinct same = absurd (omega arith)
map-store (p ∷ ps) [] memory distinct same = absurd (omega arith)
map-store (p ∷ ps) (b ∷ bytes) memory distinct same =
    let memory' : Ptr → ℕ = λ q. if q == p then b else memory q in
    let first : store ps bytes memory' p ≡ b =
      store_elsewhere p ps bytes memory' (ground (arith, distinct)) ∙ ground arith in
    rw first (ap (◌∷◌ b) (map-store ps bytes memory' (ground (arith, distinct)) (omega arith)))

-- Bytes that are stored behind others leave these as they are.
pub map-store_behind :
    (ps qs : List Ptr) (bytes : List ℕ) (memory : Ptr → ℕ)
    → all_distinct (ps ++ qs) ≡ true
    → length qs ≡ length bytes
    → map (store qs bytes memory) (ps ++ qs) ≡ map memory ps ++ bytes
map-store_behind [] qs bytes memory distinct same = map-store qs bytes memory distinct same
map-store_behind (p ∷ ps) qs bytes memory distinct same =
    let (apart, out) = has-append_eq-false p ps qs (ground (arith, distinct)) in
    rw (store_elsewhere p qs bytes memory out)
      (ap (◌∷◌ (memory p)) (map-store_behind ps qs bytes memory (ground (arith, distinct)) same))
