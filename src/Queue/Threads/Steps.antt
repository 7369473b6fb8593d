-- ===== src/Queue/Threads/Steps.antt =====
-- Each step keeps the invariant.
use win_io.Base.{
  ℕ, ◌+◌, Bool, true, false, not, ◌&&◌, ◌||◌, Option, some, none, List, [], ◌∷◌, ◌++◌, ◌==◌,
  if◌then◌else◌, ◌≡◌, ◌≢◌, refl, sym, ap, subst, ◌∙◌, arith, Bool-cases, inl, inr, append_assoc,
}
use win_io.Os.{Ptr, null}
use win_io.Queue.{Memory, update, push_round, Detached, detach, merge_round}
use win_io.Queue.Chain.{
  has, Chain, Chain-last, has-append, update_self, Chain-update, Chain-cut, Chain-append,
}
use win_io.Queue.Detach.{detach-single, detach-rest, detach-enough, detach-positive, has_last}
use win_io.Queue.Fifo.{Ends, none_left, one, more, ends}
use win_io.Queue.Threads.{
  Pc, idle, pushing, took, merging, set_pc, Threads, count, after_push, after_merge, after_walk,
  returned, Step, begin_push, try_push, pop_nothing, begin_pop, walks, try_merge, Reach, start,
  later,
}
use win_io.Queue.Threads.Invariant.{Owns, Inv, Inv-move, Inv-write}

-- A test of the same, taken twice.
same_place : (a b i : ℕ) → a ≡ b → (a == i) ≡ (b == i)
same_place a b i e = ap (λ x. x == i) e

module _ (s : Threads) (inv : Inv s) (i : ℕ) where
  mine : {p : Pc} → s.pc i ≡ p → Owns s.mem.next p (inv.held i)
  mine e = rw e at (inv.owns i)

  begin_push-Inv :
      (value : Ptr)
      → s.pc i ≡ idle
      → value ≢ null
      → count value s.pushed ≡ count value s.popped
      → Inv (record s { pc = set_pc s.pc i (pushing value s.mem.head); pushed = value ∷ s.pushed })
  begin_push-Inv value out some_node fresh =
      let nothing : inv.held i ≡ [] = mine out in
      let outside : inv.place value ≡ 0 = ground (arith, inv.counts value, fresh) in
      Inv-move s inv i (λ a. if a == value then i + 2 else inv.place a) inv.items (value ∷ []) s.mem
        (pushing value s.mem.head) (value ∷ s.pushed) s.popped inv.chain
        (λ a. ground (arith, inv.in_items a))
        (λ a. ground (arith, inv.in_held i a, ap (has a) nothing)) (λ j a other. ground arith)
        (refl, some_node) (λ j other. inv.owns j) (λ a. ground (arith, inv.counts a))

  try_push-Inv :
      (value head : Ptr) (spurious : Bool)
      → s.pc i ≡ pushing value head
      → Inv (after_push s i value head (push_round spurious s.mem value head))
  unfolding push_round
  try_push-Inv value head spurious at =
      let (alone, some_node) = mine at in
      let here : inv.place value ≡ i + 2 =
        ground (arith, inv.in_held i value, ap (has value) alone) in
      let fresh : has value inv.items ≡ false = ground (arith, inv.in_items value, here) in
      let linked : Chain (update s.mem.next value head) null s.mem.head inv.items =
        Chain-update s.mem.next null s.mem.head value head inv.items fresh inv.chain in
      let at_value : s.mem.head ≡ head
          → Chain (update s.mem.next value head) null (update s.mem.next value head value)
              inv.items =
        λ same.
          rw update_self
            (subst (λ h. Chain (update s.mem.next value head) null h inv.items) same linked) in
      let only : (a : Ptr) → (inv.place a == i + 2) ≡ (a == value) =
        λ a. ground (arith, inv.in_held i a, ap (has a) alone) in
      elim (Bool-cases (not spurious && (s.mem.head == head))) [
        | inl wins ↦ rw wins (
            Inv-write s inv i (λ a. if a == value then 1 else inv.place a) (value ∷ inv.items) []
              (record { head = value; next = update s.mem.next value head }) value head idle
              s.pushed s.popped refl here (refl, some_node, fresh, at_value (ground (arith, wins)))
              (λ a. ground (arith, inv.in_items a)) (λ a. ground (arith, only a))
              (λ j a other. ground (arith, only a)) refl
              (λ a. ground (arith, inv.counts a, only a)))
        | inr loses ↦ rw loses (
            Inv-write s inv i inv.place inv.items (value ∷ [])
              (record s.mem { next = update s.mem.next value head }) value head
              (pushing value s.mem.head) s.pushed s.popped refl here linked inv.in_items
              (λ a. ground (arith, only a)) (λ j a other. refl) (refl, some_node) inv.counts)
      ]

  begin_pop-Inv :
      s.pc i ≡ idle
      → s.mem.head ≢ null
      → Inv (record s { mem = record s.mem { head = null }; pc = set_pc s.pc i (took s.mem.head) })
  begin_pop-Inv out some_node =
      let nothing : inv.held i ≡ [] = mine out in
      let empty : (a : Ptr) → (inv.place a == i + 2) ≡ false =
        λ a. ground (arith, inv.in_held i a, ap (has a) nothing) in
      Inv-move s inv i (λ a. if inv.place a == 1 then i + 2 else inv.place a) [] inv.items
        (record s.mem { head = null }) (took s.mem.head) s.pushed s.popped refl (λ a. ground arith)
        (λ a. ground (arith, inv.in_items a, empty a)) (λ j a other. ground arith)
        (some_node, inv.chain) (λ j other. inv.owns j) (λ a. ground (arith, inv.counts a))

  try_merge-Inv :
      (value local_head tail new_head : Ptr) (spurious : Bool)
      → s.pc i ≡ merging value local_head tail new_head
      → Inv (
          after_merge s i value local_head tail
            (merge_round spurious s.mem local_head tail new_head))
  unfolding merge_round
  try_merge-Inv value local_head tail new_head spurious at =
      let (l, e, fresh, c) = mine at in
      let kept = l ++ tail ∷ [] in
      let only : (a : Ptr) → ((a == value) || has a kept) ≡ (inv.place a == i + 2) =
        λ a. sym (ap (has a) e) ∙ inv.in_held i a in
      let apart : (a : Ptr) → has a kept ≡ true → has a inv.items ≡ false =
        λ a in_kept. ground (arith, only a, inv.in_items a, in_kept) in
      let last : has tail kept ≡ true = has_last tail l in
      elim (Bool-cases (not spurious && (s.mem.head == new_head))) [
        | inl wins ↦
            let same : s.mem.head ≡ new_head = ground (arith, wins) in
            rw wins (
              Inv-move s inv i
                (λ a. if a == value then 0 else if inv.place a == i + 2 then 1 else inv.place a)
                (kept ++ inv.items) [] (record s.mem { head = local_head }) idle s.pushed
                (value ∷ s.popped)
                (Chain-append s.mem.next null local_head new_head kept inv.items c
                  (rw same at inv.chain) apart)
                (λ a. ground (arith, only a, inv.in_items a, has-append a kept inv.items, fresh))
                (λ a. ground (arith, only a)) (λ j a other. ground (arith, only a)) refl
                (λ j other. inv.owns j) (λ a. ground (arith, inv.counts a, only a)))
        | inr loses ↦ rw loses (
            Inv-write s inv i inv.place inv.items (inv.held i)
              (record s.mem { next = update s.mem.next tail s.mem.head }) tail s.mem.head
              (merging value local_head tail s.mem.head) s.pushed s.popped refl
              (ground (arith, only tail, last))
              (Chain-update s.mem.next null s.mem.head tail s.mem.head inv.items (apart tail last)
                inv.chain)
              inv.in_items (inv.in_held i) (λ j a other. refl)
              (l, e, fresh, Chain-cut s.mem.next new_head local_head tail s.mem.head l [] c)
              inv.counts)
      ]

  -- The thread behind a walk that ended in this way.
  abbrev walked : Memory × Detached → Threads
  walked (next, d) = record {
    mem = record s.mem { next = next.next };
    pc = set_pc s.pc i (after_walk d);
    pushed = s.pushed;
    popped = returned d s.popped;
  }

  abbrev IfWalked : Option (Memory × Detached) → Type 0
  IfWalked none = Unit {0}
  IfWalked (some r) = Inv (walked r)

  module _ (fuel : ℕ) (local_head : Ptr) (r : Memory × Detached)
      (detached : detach fuel (record s.mem { head = local_head }) ≡ some r)
      (some_node : local_head ≢ null) where
    walks-one :
        (v : Ptr) → Chain s.mem.next null local_head (v ∷ []) → inv.held i ≡ v ∷ [] → Inv (walked r)
    walks-one v c e =
        let m : Memory = record s.mem { head = local_head } in
        let found = detach-single fuel m v c (detach-positive fuel m r some_node detached) in
        let only : (a : Ptr) → (inv.place a == i + 2) ≡ (a == v) =
          λ a. ground (arith, inv.in_held i a, ap (has a) e) in
        subst IfWalked (sym found ∙ detached) (
          Inv-move s inv i (λ a. if a == v then 0 else inv.place a) inv.items [] s.mem idle s.pushed
            (v ∷ s.popped) inv.chain (λ a. ground (arith, inv.in_items a, only a))
            (λ a. ground (arith, only a)) (λ j a other. ground (arith, only a)) refl
            (λ j other. inv.owns j) (λ a. ground (arith, inv.counts a, only a)))

    walks-more :
        (l : List Ptr) (t v : Ptr)
        → Chain s.mem.next null local_head (l ++ t ∷ v ∷ [])
        → inv.held i ≡ l ++ t ∷ v ∷ []
        → Inv (walked r)
    walks-more l t v c e =
        let m : Memory = record s.mem { head = local_head } in
        let found = detach-rest fuel m t v l c (detach-enough fuel m t v l r c detached) in
        let fresh : has v (l ++ t ∷ []) ≡ false =
          Chain-last s.mem.next null local_head v (l ++ t ∷ [])
            (rw (append_assoc l (t ∷ []) (v ∷ [])) c) in
        let only : (a : Ptr)
            → (has a l || ((a == t) || ((a == v) || false))) ≡ (inv.place a == i + 2) =
          λ a. sym (has-append a l (t ∷ v ∷ [])) ∙ sym (ap (has a) e) ∙ inv.in_held i a in
        let here : inv.place t ≡ i + 2 = ground (arith, only t) in
        let outside : has t inv.items ≡ false = ground (arith, inv.in_items t, here) in
        subst IfWalked (sym found ∙ detached) (
          Inv-write s inv i inv.place inv.items (v ∷ l ++ t ∷ [])
            (record s.mem { next = update s.mem.next t null }) t null (merging v local_head t null)
            s.pushed s.popped refl here
            (Chain-update s.mem.next null s.mem.head t null inv.items outside inv.chain)
            inv.in_items (λ a. ground (arith, only a, has-append a l (t ∷ []))) (λ j a other. refl)
            (l, refl, fresh, Chain-cut s.mem.next null local_head t null l (v ∷ []) c) inv.counts)

    walks-Ends :
        {hs : List Ptr}
        → Ends hs
        → Chain s.mem.next null local_head hs
        → inv.held i ≡ hs
        → Inv (walked r)
    walks-Ends none_left c e = absurd (some_node c)
    walks-Ends (one v) c e = walks-one v c e
    walks-Ends (more l t v) c e = walks-more l t v c e

  walks-Inv :
      (fuel : ℕ) (local_head : Ptr) (r : Memory × Detached)
      → s.pc i ≡ took local_head
      → detach fuel (record s.mem { head = local_head }) ≡ some r
      → Inv (walked r)
  walks-Inv fuel local_head r at detached =
      let (some_node, c) = mine at in
      walks-Ends fuel local_head r detached some_node (ends (inv.held i)) c refl

pub Step-Inv : {s t : Threads} → Step s t → Inv s → Inv t
Step-Inv {s} (begin_push i value out some_node fresh) inv =
    begin_push-Inv s inv i value out some_node fresh
Step-Inv {s} (try_push i value head spurious at) inv = try_push-Inv s inv i value head spurious at
Step-Inv (pop_nothing i out empty) inv = inv
Step-Inv {s} (begin_pop i out some_node) inv = begin_pop-Inv s inv i out some_node
Step-Inv {s} (walks i fuel local_head next d at detached) inv =
    walks-Inv s inv i fuel local_head (next, d) at detached
Step-Inv {s} (try_merge i value local_head tail new_head spurious at) inv =
    try_merge-Inv s inv i value local_head tail new_head spurious at

-- Whatever the threads do, in any order, each node is in one place, and the pointers lead through
-- the nodes of each place.
pub Reach-Inv : {next : Ptr → Ptr} {s : Threads} → Reach next s → Inv s
Reach-Inv start = record {
  place = λ _. 0;
  items = [];
  held = λ _. [];
  chain = refl;
  in_items = λ a. refl;
  in_held = λ i a. ground arith;
  owns = λ i. refl;
  counts = λ a. refl;
}
Reach-Inv (later r step) = Step-Inv step (Reach-Inv r)
