-- ===== src/Queue/Threads/Safety.antt =====
-- What any number of threads can rely on.
use win_io.Base.{
  ℕ, ◌+◌, ◌-◌, ◌≤◌, false, List, [], ◌∷◌, ◌==◌, if◌then◌else◌, ◌≡◌, refl, sym, ap, ◌∙◌, arith,
}
use win_io.Os.{Ptr, null}
use win_io.Queue.Chain.{has, Chain}
use win_io.Queue.Threads.{idle, Threads, count, Reach}
use win_io.Queue.Threads.Steps.{Reach-Inv}

Chain-count :
    (next : Ptr → Ptr) (stop p a : Ptr) (xs : List Ptr)
    → Chain next stop p xs
    → count a xs ≡ (if has a xs then 1 else 0)
Chain-count next stop p a [] c = refl
Chain-count next stop p a (x ∷ xs) (_, _, fresh, c) =
    ground (arith, fresh, Chain-count next stop (next x) a xs c)

-- In every state that threads can reach, no node was returned by `pop` more often than it was
-- pushed, and a node was pushed at most once more than it was returned.
pub Reach-count :
    {next : Ptr → Ptr} {s : Threads}
    → Reach next s
    → (a : Ptr) → (count a s.popped ≤ count a s.pushed) × (count a s.pushed ≤ count a s.popped + 1)
Reach-count r a =
    let inv = Reach-Inv r in (ground (arith, inv.counts a), ground (arith, inv.counts a))

-- In every state that threads can reach and in which none is inside of `push` or `pop`, `head_`
-- leads through a list of distinct nodes, which are exactly those that were pushed and not yet
-- returned: no item is lost, and none stands in the queue twice.
pub Reach-quiet :
    {next : Ptr → Ptr} {s : Threads}
    → Reach next s
    → ((i : ℕ) → s.pc i ≡ idle)
    → (items : List Ptr) × Chain s.mem.next null s.mem.head items
      × ((a : Ptr) → count a s.pushed ≡ count a s.popped + count a items)
Reach-quiet {s} r quiet =
    let inv = Reach-Inv r in
    let nothing : (i : ℕ) → inv.held i ≡ [] = λ i. rw (quiet i) at (inv.owns i) in
    let unheld : (i : ℕ) (a : Ptr) → (inv.place a == i + 2) ≡ false =
      λ i a. sym (inv.in_held i a) ∙ ap (has a) (nothing i) in
    (
      inv.items,
      inv.chain,
      λ a. ground (
        arith,
        inv.counts a,
        inv.in_items a,
        unheld (inv.place a - 2) a,
        Chain-count s.mem.next null s.mem.head a inv.items inv.chain,
      ),
    )
