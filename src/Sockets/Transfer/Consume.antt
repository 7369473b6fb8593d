-- ===== src/Sockets/Transfer/Consume.antt =====
-- What `consume` leaves to transfer.
use win_io.Base.{
  ℕ, zero, suc, ◌+◌, ◌-◌, ◌^◌, ◌≤◌, ◌<◌, ◌≡◌, refl, sym, ap, ◌∙◌, arith, true, none, some, List, [],
  ◌∷◌, ◌++◌, leb, drop, length, length-append, append_assoc, Bool-cases, ◌⊎◌, inl, inr,
}
use win_io.Base.Outcome.{done}
use win_io.Os.{Ptr}
use win_io.Sockets.Buffers.{BufferRef, OneBufferOwnerOrManyRef, size_t, sum_from, total_size}
use win_io.Sockets.Transfer.{State, consume_loop, consume, is_nonempty, current_impl}

-- The addresses of the bytes of a buffer.
abbrev pub range : Ptr → ℕ → List Ptr
range p zero = []
range p (suc n) = p ∷ range (p + 1) n

-- The addresses of all bytes, in the order in which they are transferred.
abbrev pub cells : List BufferRef → List Ptr
cells [] = []
cells (b ∷ bs) = range b.buf b.len ++ cells bs

abbrev pub sum_len : List BufferRef → ℕ
sum_len [] = 0
sum_len (b ∷ bs) = b.len + sum_len bs

drop-range :
    (p k n : ℕ) (xs : List Ptr) → k ≤ n → drop k (range p n ++ xs) ≡ range (p + k) (n - k) ++ xs
drop-range p zero n xs h = ground arith
drop-range p (suc k) zero xs h = absurd (omega arith)
drop-range p (suc k) (suc n) xs h = ground (arith, drop-range (p + 1) k n xs)

drop-range_all : (p k n : ℕ) (xs : List Ptr) → n ≤ k → drop k (range p n ++ xs) ≡ drop (k - n) xs
drop-range_all p k zero xs h = ground arith
drop-range_all p zero (suc n) xs h = absurd (omega arith)
drop-range_all p (suc k) (suc n) xs h = ground (arith, drop-range_all (p + 1) k n xs)

-- The loop stops at the first byte that is not transferred yet, on the same array otherwise.
pub consume_loop-cells :
    (k : ℕ) (passed bs : List BufferRef)
    → k < sum_len bs
    → let split = consume_loop k passed bs in
      (cells split.1 ≡ drop k (cells bs))
      × (sum_len split.1 + k ≡ sum_len bs)
      × (is_nonempty split.1 ≡ true)
      × (length (split.0 ++ split.1) ≡ length (passed ++ bs))
consume_loop-cells k passed [] h = absurd (omega arith)
consume_loop-cells k passed (b ∷ bs) h = elim (Bool-cases (leb b.len k)) [
  | inl whole ↦ rw whole (
      let (same, left, some_left, count) =
        consume_loop-cells (k - b.len) (passed ++ b ∷ []) bs (ground arith) in
      (
        same ∙ sym (drop-range_all b.buf k b.len (cells bs) (ground arith)),
        ground arith,
        some_left,
        count ∙ ap length (append_assoc passed (b ∷ []) bs),
      ))
  | inr part ↦ rw part (
    sym (drop-range b.buf k b.len (cells bs) (ground arith)),
    ground arith,
    refl,
    omega (arith, length-append {0}),
  )
]

pub drop_all : (n : ℕ) (xs : List Ptr) → length xs ≤ n → drop n xs ≡ []
drop_all zero [] h = refl
drop_all zero (x ∷ xs) h = absurd (omega arith)
drop_all (suc n) [] h = refl
drop_all (suc n) (x ∷ xs) h = drop_all n xs (omega arith)

pub length-range : (p n : ℕ) → length (range p n) ≡ n
length-range p zero = refl
length-range p (suc n) = ap suc (length-range (p + 1) n)

pub cells-length : (bs : List BufferRef) → length (cells bs) ≡ sum_len bs
cells-length [] = refl
cells-length (b ∷ bs) =
    omega (
      arith,
      length-append (range b.buf b.len) (cells bs),
      length-range b.buf b.len,
      cells-length bs,
    )

-- A transfer of `total` bytes in all, of which those of `rest` are left.
pub record IsTransfer (s : State) (total : ℕ) : Type 0 where
  pub small : total < 2 ^ 63
  pub accounted : s.processed_bytes + sum_len s.rest ≡ total
  pub sized :
      (s.buffers_impl.total_size ≡ some total)
      ⊎ ((s.buffers_impl.total_size ≡ none)
          × (s.passed ≡ [])
          × (s.processed_bytes ≡ 0)
          × (bs : List BufferRef) × (s.buffers_impl.buffers ≡ some bs))

sum_from-sum_len :
    (v : ℕ) (bs : List BufferRef) → v + sum_len bs < 2 ^ 64 → sum_from v bs ≡ v + sum_len bs
sum_from-sum_len v [] h = omega arith
sum_from-sum_len v (b ∷ bs) h = omega (arith, sum_from-sum_len (size_t (v + b.len)) bs)

-- The size that the transfer goes by is its total, however it was given.
pub total_size-IsTransfer :
    (s : State) (total : ℕ)
    → IsTransfer s total
    → (impl : OneBufferOwnerOrManyRef) × (total_size (current_impl s) ≡ done (total, impl))
      × (impl.total_size ≡ some total)
unfolding total_size
total_size-IsTransfer s total t = go t.sized
  where
    go :
        ((s.buffers_impl.total_size ≡ some total)
          ⊎ ((s.buffers_impl.total_size ≡ none)
              × (s.passed ≡ [])
              × (s.processed_bytes ≡ 0)
              × (bs : List BufferRef) × (s.buffers_impl.buffers ≡ some bs)))
        → (impl : OneBufferOwnerOrManyRef) × (total_size (current_impl s) ≡ done (total, impl))
          × (impl.total_size ≡ some total)
    go (inl known) = (current_impl s, ground arith, known)
    go (inr (unknown, passed, none_yet, bs, many)) =
        let sum : sum_from 0 s.rest ≡ total =
          sum_from-sum_len 0 s.rest (omega (arith, t.accounted, t.small))
          ∙ omega (arith, t.accounted, none_yet) in
        (
          record s.buffers_impl { buffers = some s.rest; total_size = some total },
          rw (unknown, many, passed, sum, many, passed),
          refl,
        )

module _ (s : State) (n total : ℕ) (t : IsTransfer s total) (fits : n ≤ sum_len s.rest) where
  -- After `n` more bytes, of those that are left, exactly the bytes behind them are left, and the
  -- count of processed bytes and the total stay right. No assertion fails.
  pub consume-cells :
      (s' : State) × (consume s n ≡ done s')
      × (cells s'.rest ≡ drop n (cells s.rest))
      × (s'.processed_bytes ≡ s.processed_bytes + n)
      × IsTransfer s' total
      × (s'.buffers_impl.total_size ≡ some total)
  unfolding consume
  consume-cells =
      let (impl, sized, known) = total_size-IsTransfer s total t in
      let no_wrap : size_t (s.processed_bytes + n) ≡ s.processed_bytes + n =
        omega (arith, t.accounted, t.small) in
      elim (Bool-cases (leb total (s.processed_bytes + n))) [
        | inl over ↦ (
          record {
            buffers_impl = impl;
            passed = s.passed ++ s.rest;
            rest = [];
            processed_bytes = s.processed_bytes + n;
          },
          rw (no_wrap, sized, over),
          sym (drop_all n (cells s.rest) (ground (arith, t.accounted, cells-length s.rest))),
          refl,
          record { small = t.small; accounted = ground (arith, t.accounted); sized = inl known },
          known,
        )
        | inr under ↦
            let split = consume_loop n s.passed s.rest in
            let (same, left, some_left, _) =
              consume_loop-cells n s.passed s.rest (ground (arith, t.accounted)) in
            (
              record {
                buffers_impl = impl;
                passed = split.0;
                rest = split.1;
                processed_bytes = s.processed_bytes + n;
              },
              rw (no_wrap, sized, under, some_left),
              same,
              refl,
              record {
                small = t.small;
                accounted = omega (arith, left, t.accounted);
                sized = inl known;
              },
              known,
            )
      ]
