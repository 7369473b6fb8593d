-- ===== src/Queue/Threads/Invariant.antt =====
-- Who owns which node.
use win_io.Base.{
  ℕ, ◌+◌, false, List, [], ◌∷◌, ◌++◌, ◌==◌, if◌then◌else◌, ◌≡◌, ◌≢◌, sym, ap, ◌∙◌, arith,
  Bool-cases, inl, inr,
}
use win_io.Os.{Ptr, null}
use win_io.Queue.{Memory, update}
use win_io.Queue.Chain.{has, Chain, Chain-update}
use win_io.Queue.Threads.{Pc, idle, pushing, took, merging, set_pc, Threads, count}

-- The nodes of a thread, by where it is: the item it pushes; the list it took; or, in the second
-- loop of `pop`, the list that it puts back, which leads on to `new_head`, and the item that it
-- returns.
abbrev pub Owns : (Ptr → Ptr) → Pc → List Ptr → Type 0
Owns next idle hs = hs ≡ []
Owns next (pushing value head) hs = (hs ≡ value ∷ []) × (value ≢ null)
Owns next (took local_head) hs = (local_head ≢ null) × Chain next null local_head hs
Owns next (merging value local_head tail new_head) hs =
    (l : List Ptr) × (hs ≡ value ∷ l ++ tail ∷ [])
    × (has value (l ++ tail ∷ []) ≡ false)
    × Chain next new_head local_head (l ++ tail ∷ [])

-- `place` says of each node where it is: 0 with the clients, 1 in the shared list, and `i + 2` in
-- the hands of thread `i`.
pub record Inv (s : Threads) : Type 0 where
  pub place : Ptr → ℕ
  pub items : List Ptr
  pub held : ℕ → List Ptr
  pub chain : Chain s.mem.next null s.mem.head items
  pub in_items : (a : Ptr) → has a items ≡ (place a == 1)
  pub in_held : (i : ℕ) (a : Ptr) → has a (held i) ≡ (place a == i + 2)
  pub owns : (i : ℕ) → Owns s.mem.next (s.pc i) (held i)
  pub counts : (a : Ptr) → count a s.pushed ≡ count a s.popped + (if place a == 0 then 0 else 1)

-- A write to a node of another leaves what a thread owns as it is.
pub Owns-update :
    (next : Ptr → Ptr) (w q : Ptr) (p : Pc) (hs : List Ptr)
    → has w hs ≡ false
    → Owns next p hs
    → Owns (update next w q) p hs
Owns-update next w q idle hs out o = o
Owns-update next w q (pushing value head) hs out o = o
Owns-update next w q (took local_head) hs out (some_node, c) =
    (some_node, Chain-update next null local_head w q hs out c)
Owns-update next w q (merging value local_head tail new_head) hs out (l, e, fresh, c) =
    let out' : has w (l ++ tail ∷ []) ≡ false = ground (arith, sym (ap (has w) e) ∙ out) in
    (l, e, fresh, Chain-update next new_head local_head w q (l ++ tail ∷ []) out' c)

-- One thread moves: the others own what they owned, and only it and the shared list change.
module _ (s : Threads) (inv : Inv s) (i : ℕ) (place : Ptr → ℕ) (items hs : List Ptr) where
  pub Inv-move :
      (m : Memory) (p : Pc) (pushed popped : List Ptr)
      → Chain m.next null m.head items
      → ((a : Ptr) → has a items ≡ (place a == 1))
      → ((a : Ptr) → has a hs ≡ (place a == i + 2))
      → ((j : ℕ) (a : Ptr) → j ≢ i → (inv.place a == j + 2) ≡ (place a == j + 2))
      → Owns m.next p hs
      → ((j : ℕ) → j ≢ i → Owns m.next (s.pc j) (inv.held j))
      → ((a : Ptr) → count a pushed ≡ count a popped + (if place a == 0 then 0 else 1))
      → Inv (record { mem = m; pc = set_pc s.pc i p; pushed = pushed; popped = popped })
  Inv-move m p pushed popped c in_items in_hs others mine theirs counts = record {
    place = place;
    items = items;
    held = λ j. if j == i then hs else inv.held j;
    chain = c;
    in_items = in_items;
    in_held = λ j a. elim (Bool-cases (j == i)) [
      | inl same ↦ let e : j ≡ i = ground (arith, same) in rw (same, e) (in_hs a)
      | inr other ↦
          let e : j ≢ i = ground (arith, other) in rw other (inv.in_held j a ∙ others j a e)
    ];
    owns = λ j. elim (Bool-cases (j == i)) [
      | inl same ↦ rw same mine
      | inr other ↦ let e : j ≢ i = ground (arith, other) in rw other (theirs j e)
    ];
    counts = counts;
  }

  -- The same for a thread that writes nothing but the field of a node that it owns.
  pub Inv-write :
      (m : Memory) (w q : Ptr) (p : Pc) (pushed popped : List Ptr)
      → m.next ≡ update s.mem.next w q
      → inv.place w ≡ i + 2
      → Chain m.next null m.head items
      → ((a : Ptr) → has a items ≡ (place a == 1))
      → ((a : Ptr) → has a hs ≡ (place a == i + 2))
      → ((j : ℕ) (a : Ptr) → j ≢ i → (inv.place a == j + 2) ≡ (place a == j + 2))
      → Owns m.next p hs
      → ((a : Ptr) → count a pushed ≡ count a popped + (if place a == 0 then 0 else 1))
      → Inv (record { mem = m; pc = set_pc s.pc i p; pushed = pushed; popped = popped })
  Inv-write m w q p pushed popped written owned c in_items in_hs others mine counts =
      Inv-move m p pushed popped c in_items in_hs others mine
        (λ j e. rw written (
          Owns-update s.mem.next w q (s.pc j) (inv.held j)
            (inv.in_held j w ∙ ground (arith, owned, e)) (inv.owns j)))
        counts
