-- ===== src/Queue/Detach.antt =====
-- The two halves of `pop`: what it takes from the shared list, and what it puts back.
use win_io.Base.{
  ℕ, zero, suc, ◌<◌, Bool, true, false, some, List, [], ◌∷◌, ◌++◌, ◌≡◌, ◌≢◌, ◌==◌, inl, inr, arith,
  length, replicate, append_assoc, Bool-cases, Option-cases,
}
use win_io.Os.{Ptr, null}
use win_io.Queue.{
  Memory, update, set_next, walk, Detached, was_empty, single, rest, detach, merge_loop,
}
use win_io.Queue.Chain.{has, Chain, Chain-update, Chain-cut, Chain-append}

-- The walk stops at the node `t` before the last one, cuts behind it, and returns the last one.
walk-cut :
    (fuel : ℕ) (next : Ptr → Ptr) (p t v : Ptr) (l : List Ptr)
    → Chain next null p (l ++ t ∷ v ∷ [])
    → length l < fuel
    → walk fuel next p ≡ some (update next t null, t, v)
unfolding walk
walk-cut zero next p t v l c enough = absurd (omega arith)
walk-cut (suc fuel) next p t v [] c enough = ground arith
walk-cut (suc fuel) next p t v (x ∷ []) c enough =
    ground (arith, walk-cut fuel next (next x) t v [])
walk-cut (suc fuel) next p t v (x ∷ y ∷ []) c enough =
    ground (arith, walk-cut fuel next (next x) t v (y ∷ []))
walk-cut (suc fuel) next p t v (x ∷ y ∷ z ∷ l) c enough =
    ground (arith, walk-cut fuel next (next x) t v (y ∷ z ∷ l))

-- It does not stop before.
walk-enough :
    (fuel : ℕ) (next : Ptr → Ptr) (p t v : Ptr) (l : List Ptr) (r : (Ptr → Ptr) × Ptr × Ptr)
    → Chain next null p (l ++ t ∷ v ∷ [])
    → walk fuel next p ≡ some r
    → length l < fuel
unfolding walk
walk-enough zero next p t v l r c stops = cc
walk-enough (suc fuel) next p t v [] r c stops = omega arith
walk-enough (suc fuel) next p t v (x ∷ []) r c stops =
    ground (arith, walk-enough fuel next (next x) t v [] r)
walk-enough (suc fuel) next p t v (x ∷ y ∷ []) r c stops =
    ground (arith, walk-enough fuel next (next x) t v (y ∷ []) r)
walk-enough (suc fuel) next p t v (x ∷ y ∷ z ∷ l) r c stops =
    ground (arith, walk-enough fuel next (next x) t v (y ∷ z ∷ l) r)

last-ne-null :
    (next : Ptr → Ptr) (p t v : Ptr) (l : List Ptr) → Chain next null p (l ++ t ∷ v ∷ []) → v ≢ null
last-ne-null next p t v [] c = c.3.1
last-ne-null next p t v (x ∷ l) c = last-ne-null next (next x) t v l c.3

head-ne-null :
    (next : Ptr → Ptr) (p t v : Ptr) (l : List Ptr)
    → Chain next null p (l ++ t ∷ v ∷ [])
    → (p == null) ≡ false
head-ne-null next p t v [] c = ground arith
head-ne-null next p t v (x ∷ l) c = ground arith

pub has_last : (t : Ptr) (l : List Ptr) → has t (l ++ t ∷ []) ≡ true
has_last t [] = ground arith
has_last t (x ∷ l) = ground (arith, has_last t l)

pub detach-positive :
    (fuel : ℕ) (m : Memory) (r : Memory × Detached)
    → m.head ≢ null
    → detach fuel m ≡ some r
    → 0 < fuel
unfolding detach
detach-positive zero m r some_node stops = absurd (ground arith)
detach-positive (suc fuel) m r some_node stops = omega arith

module _ (fuel : ℕ) (m : Memory) where
  pub detach-empty : Chain m.next null m.head [] → detach fuel m ≡ some (m, was_empty)
  unfolding detach
  detach-empty c = ground arith

  pub detach-single :
      (v : Ptr)
      → Chain m.next null m.head (v ∷ [])
      → 0 < fuel
      → detach fuel m ≡ some (record { head = null; next = m.next }, single v)
  unfolding detach
  detach-single v c enough = single_walk fuel enough
    where
      single_walk :
          (k : ℕ) → 0 < k → detach k m ≡ some (record { head = null; next = m.next }, single v)
      single_walk zero enough = absurd (omega arith)
      single_walk (suc k) enough = ground arith

  pub detach-rest :
      (t v : Ptr) (l : List Ptr)
      → Chain m.next null m.head (l ++ t ∷ v ∷ [])
      → length l < fuel
      → detach fuel m ≡ some (record { head = null; next = update m.next t null }, rest v m.head t)
  unfolding detach
  detach-rest t v [] c enough = ground (arith, walk-cut fuel m.next m.head t v [] c enough)
  detach-rest t v (x ∷ l) c enough = ground (
    arith,
    walk-cut fuel m.next m.head t v (x ∷ l) c enough,
    last-ne-null m.next m.head t v (x ∷ l) c,
  )

  -- What `detach` finds when it stops.
  pub detach-enough :
      (t v : Ptr) (l : List Ptr) (r : Memory × Detached)
      → Chain m.next null m.head (l ++ t ∷ v ∷ [])
      → detach fuel m ≡ some r
      → length l < fuel
  unfolding detach
  detach-enough t v l r c stops =
      let some_head : (m.head == null) ≡ false = head-ne-null m.next m.head t v l c in
      elim (Option-cases (walk fuel m.next m.head)) [
        | inl none_found ↦ absurd (cc (rw (some_head, none_found) at stops))
        | inr (found, walked) ↦ walk-enough fuel m.next m.head t v l found c walked
      ]

-- A schedule of attempts: `n` fail spuriously, then `k` are given that do not.
abbrev pub attempts : (n k : ℕ) → List Bool
attempts n k = replicate n true ++ replicate k false

module _ (lh t : Ptr) (l zs : List Ptr)
    (apart : (a : Ptr) → has a (l ++ t ∷ []) ≡ true → has a zs ≡ false) where
  apart_last : has t zs ≡ false
  apart_last = apart t (has_last t l)

  linked :
      (m : Memory)
      → Chain m.next m.head lh (l ++ t ∷ [])
      → Chain m.next null m.head zs
      → Chain m.next null lh (l ++ t ∷ zs)
  linked m kept others =
      rw (← append_assoc l (t ∷ []) zs)
        (Chain-append m.next null lh m.head (l ++ t ∷ []) zs kept others apart)

  relinked :
      (m : Memory) (new_head : Ptr)
      → Chain m.next new_head lh (l ++ t ∷ [])
      → Chain m.next null m.head zs
      → Chain (update m.next t m.head) m.head lh (l ++ t ∷ [])
        × Chain (update m.next t m.head) null m.head zs
  relinked m new_head kept others = (
    Chain-cut m.next new_head lh t m.head l [] kept,
    Chain-update m.next null m.head t m.head zs apart_last others,
  )

  -- The kept nodes, linked in front of the list that the other threads have left.
  pub merge_loop-Chain :
      (n : ℕ) (m : Memory) (new_head : Ptr)
      → Chain m.next new_head lh (l ++ t ∷ [])
      → Chain m.next null m.head zs
      → (m' : Memory) × (merge_loop (attempts n 2) m lh t new_head ≡ some m')
        × Chain m'.next null m'.head (l ++ t ∷ zs)
  unfolding merge_loop
  merge_loop-Chain (suc n) m new_head kept others =
      let (kept', others') = relinked m new_head kept others in
      merge_loop-Chain n (set_next m t m.head) m.head kept' others'
  merge_loop-Chain zero m new_head kept others = elim (Bool-cases (m.head == new_head)) [
    | inl same ↦
        let e : m.head ≡ new_head = ground arith in
        (record m { head = lh }, rw same, linked m (rw e kept) others)
    | inr other ↦
        let (kept', others') = relinked m new_head kept others in
        (
          record m { head = lh; next = update m.next t m.head },
          ground arith,
          linked (set_next m t m.head) kept' others',
        )
  ]
