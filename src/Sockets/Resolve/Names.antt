-- ===== src/Sockets/Resolve/Names.antt =====
-- What the system reads of the buffers for names.
use win_io.Base.{
  ℕ, zero, suc, ◌-◌, ◌≤◌, ◌≡◌, ◌≢◌, refl, arith, Option, none, some, List, [], ◌∷◌, ◌++◌, ◌==◌, ltb,
  length, replicate, length-append, length-replicate, append-nil, if◌then◌else◌, true, false,
}
use win_io.Base.Outcome.{done}
use win_io.Sockets.Resolve.{name_size, wide_name}

-- The text that ends at the first zero, or none if the memory has no zero.
abbrev pub terminated : List ℕ → Option (List ℕ)
terminated [] = none
terminated (c ∷ cs) =
    let rest = terminated cs in
    if c == 0 then some [] else elim rest [ none ↦ none | some text ↦ some (c ∷ text) ]

abbrev pub NoZero : List ℕ → Type 0
NoZero [] = Unit {0}
NoZero (c ∷ cs) = (c ≢ 0) × NoZero cs

terminated-append : (cs rest : List ℕ) → NoZero cs → terminated (cs ++ 0 ∷ rest) ≡ some cs
terminated-append [] rest no_zero = refl
terminated-append (c ∷ cs) rest (some_char, no_zero) =
    let is_char : (c == 0) ≡ false = ground (arith, some_char) in
    rw (is_char, terminated-append cs rest no_zero) refl

terminated-none : (cs : List ℕ) → NoZero cs → terminated cs ≡ none
terminated-none [] no_zero = refl
terminated-none (c ∷ cs) (some_char, no_zero) =
    let is_char : (c == 0) ≡ false = ground (arith, some_char) in
    rw (is_char, terminated-none cs no_zero) refl

padded :
    (cs : List ℕ) (n : ℕ)
    → NoZero cs
    → terminated (cs ++ replicate n 0) ≡ (if ltb 0 n then some cs else none)
padded cs zero no_zero = rw (append-nil cs, terminated-none cs no_zero) refl
padded cs (suc n) no_zero = rw positive (terminated-append cs (replicate n 0) no_zero)
  where
    positive : ltb 0 (suc n) ≡ true
    positive = ground arith

-- The buffer of a name that converts to at most 256 characters, none of them zero, is 256
-- characters long, and the system finds exactly these characters in it if they are fewer than 256.
-- With 256 of them there is no terminating zero.
pub wide_name-terminated :
    (to_wide : List ℕ → Option (List ℕ)) (name written : List ℕ)
    → name ≢ []
    → to_wide name ≡ some written
    → length written ≤ name_size
    → NoZero written
    → (buffer : List ℕ) × (wide_name to_wide name ≡ done buffer)
      × (length buffer ≡ name_size)
      × (terminated buffer ≡ (if ltb (length written) name_size then some written else none))
unfolding wide_name
wide_name-terminated to_wide [] written some_name converts fits no_zero = absurd (some_name refl)
wide_name-terminated to_wide (c ∷ name) written some_name converts fits no_zero =
    let pad = name_size - length written in
    (
      written ++ replicate pad 0,
      ground (arith, converts),
      omega (arith, fits, length-append written (replicate pad 0), length-replicate {A = ℕ} pad 0),
      rw (padded written pad no_zero) (ground (arith, fits)),
    )
