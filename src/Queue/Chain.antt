-- ===== src/Queue/Chain.antt =====
-- Lists of nodes in memory.
use win_io.Base.{Bool, true, false, List, [], ◌∷◌, ◌++◌, ◌||◌, ◌≡◌, ◌≢◌, refl, ◌==◌, arith}
use win_io.Os.{Ptr, null}
use win_io.Queue.{update}

abbrev pub has : Ptr → List Ptr → Bool
has a [] = false
has a (x ∷ xs) = (a == x) || has a xs

pub has-append : (a : Ptr) (xs ys : List Ptr) → has a (xs ++ ys) ≡ (has a xs || has a ys)
has-append a [] ys = refl
has-append a (x ∷ xs) ys = ground (arith, has-append a xs ys)

pub has-append_eq-false :
    (a : Ptr) (xs ys : List Ptr)
    → has a (xs ++ ys) ≡ false
    → (has a xs ≡ false) × (has a ys ≡ false)
has-append_eq-false a xs ys out = ground (arith, has-append a xs ys)

-- From `p` the `next` pointers lead through the distinct nodes `xs` to `stop`.
abbrev pub Chain : (Ptr → Ptr) → Ptr → Ptr → List Ptr → Type 0
Chain next stop p [] = p ≡ stop
Chain next stop p (x ∷ xs) = (p ≡ x) × (x ≢ null) × (has x xs ≡ false) × Chain next stop (next x) xs

pub update_self : (f : Ptr → Ptr) (p v : Ptr) → update f p v p ≡ v
unfolding update
update_self f p v = ground arith

module _ (next : Ptr → Ptr) (stop : Ptr) where
  -- A write to a node outside the chain leaves the chain alone.
  pub Chain-update :
      (p a q : Ptr) (xs : List Ptr)
      → has a xs ≡ false
      → Chain next stop p xs
      → Chain (update next a q) stop p xs
  unfolding update
  Chain-update p a q [] out c = c
  Chain-update p a q (x ∷ xs) out (here, some_node, fresh, c) =
      ground (arith, Chain-update (next x) a q xs)

  -- A write to the node `t` of a chain cuts the chain behind `t`, and leads on to `q`.
  pub Chain-cut :
      (p t q : Ptr) (xs ys : List Ptr)
      → Chain next stop p (xs ++ t ∷ ys)
      → Chain (update next t q) q p (xs ++ t ∷ [])
  unfolding update
  Chain-cut p t q [] ys c = ground arith
  Chain-cut p t q (x ∷ xs) ys (here, some_node, fresh, c) =
      let apart = has-append_eq-false x xs (t ∷ ys) fresh in
      ground (arith, Chain-cut (next x) t q xs ys c, has-append x xs (t ∷ []))

  pub Chain-append :
      (p q : Ptr) (xs ys : List Ptr)
      → Chain next q p xs
      → Chain next stop q ys
      → ((a : Ptr) → has a xs ≡ true → has a ys ≡ false)
      → Chain next stop p (xs ++ ys)
  Chain-append p q [] ys c d apart = rw c d
  Chain-append p q (x ∷ xs) ys (here, some_node, fresh, c) d apart = (
    here,
    some_node,
    rw has-append (ground (arith, apart x)),
    Chain-append (next x) q xs ys c d (λ a m. ground (arith, apart a)),
  )

-- The last node of a chain does not stand in it before.
pub Chain-last :
    (next : Ptr → Ptr) (stop p t : Ptr) (xs : List Ptr)
    → Chain next stop p (xs ++ t ∷ [])
    → has t xs ≡ false
Chain-last next stop p t [] c = refl
Chain-last next stop p t (x ∷ xs) (_, _, fresh, c) =
    ground (arith, Chain-last next stop (next x) t xs c, has-append x xs (t ∷ []))
