-- ===== src/Queue/Race.antt =====
-- A push of another thread between the two halves of a pop.
use mathlib.Core.List.{reverse, reverse-append, reverse-reverse}
use win_io.Base.{
  ℕ, ◌<◌, true, false, some, List, [], ◌∷◌, ◌++◌, ◌≡◌, ◌≢◌, refl, sym, ap, ◌∙◌, arith, length,
  Bool-cases, inl, inr, ◌==◌,
}
use win_io.Os.{Ptr, null}
use win_io.Queue.{Memory, update, push, Detached, rest, detach, reattach}
use win_io.Queue.Chain.{has, Chain, Chain-cut}
use win_io.Queue.Detach.{attempts, detach-rest, merge_loop-Chain}
use win_io.Queue.Fifo.{Holds, push_loop-Chain, has-reverse, length-reverse}

-- What becomes of the queue `q` if a pop is interrupted by a complete push of `w`, after the pop
-- has taken the list and before it puts the rest back.
pub record Interrupted (fuel n k : ℕ) (m : Memory) (v w : Ptr) (q : List Ptr) : Type 0 where
  pub held : Detached
  pub taken : Memory
  pub pushed : Memory
  pub last : Memory
  pub first_half : detach fuel m ≡ some (taken, held)
  pub push_between : push (attempts k 1) taken w ≡ some pushed
  pub second_half : reattach (attempts n 2) pushed held ≡ some (last, some v)
  pub left : Holds last q

has-single :
    (a w : Ptr) (xs : List Ptr) → has w xs ≡ false → has a xs ≡ true → has a (w ∷ []) ≡ false
has-single a w xs out i = elim (Bool-cases (a == w)) [
  | inl same ↦ let e : a ≡ w = ground arith in cc (i, ap (λ b. has b xs) e, out)
  | inr other ↦ rw other
]

race :
    (fuel n k : ℕ) (m : Memory) (l : List Ptr) (t v w : Ptr)
    → Chain m.next null m.head (l ++ t ∷ v ∷ [])
    → length l < fuel
    → w ≢ null
    → has w (l ++ t ∷ []) ≡ false
    → Interrupted fuel n k m v w (w ∷ reverse (l ++ t ∷ []))
unfolding push reattach
race fuel n k m l t v w c enough some_node fresh =
    let taken : Memory = record { head = null; next = update m.next t null } in
    let kept = Chain-cut m.next null m.head t null l (v ∷ []) c in
    let (m', pushed, chained, frame) = push_loop-Chain k taken w [] some_node refl refl in
    let (m'', merged, joined) =
      merge_loop-Chain m.head t l (w ∷ []) (λ a i. has-single a w (l ++ t ∷ []) fresh i) n m' null
        (frame null m.head (l ++ t ∷ []) fresh kept) chained in
    record {
      held = rest v m.head t;
      taken = taken;
      pushed = m';
      last = m'';
      first_half = detach-rest fuel m t v l c enough;
      push_between = pushed;
      second_half = rw (merged, reattach);
      left = record {
        items = l ++ t ∷ w ∷ [];
        chain = joined;
        order = rw (reverse-append l (t ∷ w ∷ []), reverse-append l (t ∷ []));
      };
    }

-- If another thread pushes `w` between the two halves of a pop, and at least
-- one item is left over by that pop, then the item that came last will be the first to leave.
-- No item is lost, and the pop returns the oldest one.
pub pop-overtaken :
    (fuel n k : ℕ) (m : Memory) (v s w : Ptr) (q : List Ptr)
    → Holds m (v ∷ s ∷ q)
    → length q < fuel
    → w ≢ null
    → has w (s ∷ q) ≡ false
    → Interrupted fuel n k m v w (w ∷ s ∷ q)
pop-overtaken fuel n k m v s w q h enough some_node fresh =
    let items : h.items ≡ reverse q ++ s ∷ v ∷ [] =
      sym (reverse-reverse h.items) ∙ ap reverse (sym h.order) ∙ reverse-append (v ∷ s ∷ []) q in
    let back : reverse (reverse q ++ s ∷ []) ≡ s ∷ q =
      reverse-append (reverse q) (s ∷ []) ∙ ap (◌∷◌ s) (reverse-reverse q) in
    let absent : has w (reverse q ++ s ∷ []) ≡ false =
      sym (has-reverse w (reverse q ++ s ∷ [])) ∙ ap (has w) back ∙ fresh in
    rw (← back) (
      race fuel n k m (reverse q) s v w (rw items at h.chain) (omega (arith, length-reverse q))
        some_node absent)
