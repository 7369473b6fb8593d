-- ===== src/Sockets/Transfer/Loop.antt =====
-- The whole of `async_read` or `async_write`.
use win_io.Base.{
  ℕ, zero, suc, ◌+◌, ◌-◌, ◌^◌, ◌≤◌, ◌<◌, ◌≡◌, refl, sym, ap, ◌∙◌, arith, true, false, some, List,
  [], ◌∷◌, ◌++◌, leb, if◌then◌else◌, drop, map, inl, inr,
}
use win_io.Base.Outcome.{done}
use win_io.Os.{Ptr, ErrorCode}
use win_io.Sockets.Buffers.{BufferRef, one_buffer, many_buffers, many_buffers_of_size}
use win_io.Sockets.Transfer.{
  State, start_state, is_completed, Signal, set_value, set_error, set_done, completes, waits,
  async_read_write,
}
use win_io.Sockets.Transfer.Consume.{
  cells, sum_len, IsTransfer, consume-cells, total_size-IsTransfer,
}

abbrev pub sum : List ℕ → ℕ
sum [] = 0
sum (n ∷ ns) = n + sum ns

drop-nil : (n : ℕ) → drop {A = Ptr} n [] ≡ []
drop-nil zero = refl
drop-nil (suc n) = refl

drop-drop : (m n : ℕ) (xs : List Ptr) → drop n (drop m xs) ≡ drop (m + n) xs
drop-drop zero n xs = ground arith
drop-drop (suc m) n [] = drop-nil n ∙ sym (drop-nil (suc m + n))
drop-drop (suc m) n (x ∷ xs) =
    let e : suc m + n ≡ suc (m + n) = omega arith in rw e (drop-drop m n xs)

is_completed-IsTransfer :
    (s : State) (total : ℕ)
    → IsTransfer s total
    → s.buffers_impl.total_size ≡ some total
    → (s' : State) × (is_completed s ≡ done (leb total s.processed_bytes, s'))
      × (s'.rest ≡ s.rest)
      × (s'.processed_bytes ≡ s.processed_bytes)
      × IsTransfer s' total
unfolding is_completed
is_completed-IsTransfer s total t known =
    let (impl, sized, known') = total_size-IsTransfer s total t in
    (
      record s { buffers_impl = impl },
      rw sized,
      refl,
      refl,
      record { small = t.small; accounted = t.accounted; sized = inl known' },
    )

-- One call and the test behind it.
pub one_call :
    (s : State) (n total : ℕ) (later : List (Signal ℕ))
    → IsTransfer s total
    → n ≤ sum_len s.rest
    → (s' : State) × (async_read_write (set_value n ∷ later) s ≡ (
        if leb total (s.processed_bytes + n)
        then done (completes (set_value (s.processed_bytes + n)))
        else async_read_write later s'))
      × (cells s'.rest ≡ drop n (cells s.rest))
      × (s'.processed_bytes ≡ s.processed_bytes + n)
      × IsTransfer s' total
unfolding async_read_write
one_call s n total later t fits =
    let (s1, consumed, same, count, t1, known) = consume-cells s n total t fits in
    let (s2, tested, rest, kept, t2) = is_completed-IsTransfer s1 total t1 known in
    (s2, rw (consumed, tested, kept, count), ap cells rest ∙ same, kept ∙ count, t2)

module _ (total : ℕ) where
  -- Calls that leave bytes to transfer: the loop goes on with exactly the bytes behind them.
  goes_on :
      (ns : List ℕ) (s : State) (later : List (Signal ℕ))
      → IsTransfer s total
      → sum ns < sum_len s.rest
      → (s' : State) × (async_read_write (map set_value ns ++ later) s ≡ async_read_write later s')
        × (cells s'.rest ≡ drop (sum ns) (cells s.rest))
        × (s'.processed_bytes ≡ s.processed_bytes + sum ns)
        × IsTransfer s' total
  goes_on [] s later t less = (s, refl, refl, omega arith, t)
  goes_on (n ∷ ns) s later t less =
      let (s1, called, same, count, t1) =
        one_call s n total (map set_value ns ++ later) t (omega arith) in
      let unfinished : leb total (s.processed_bytes + n) ≡ false = ground (arith, t.accounted) in
      let (s2, went_on, same2, count2, t2) =
        goes_on ns s1 later t1 (omega (arith, t.accounted, t1.accounted, count)) in
      (
        s2,
        called ∙ rw (unfinished) went_on,
        same2 ∙ ap (drop (sum ns)) same ∙ drop-drop n (sum ns) (cells s.rest),
        omega (arith, count, count2),
        t2,
      )

  -- After calls that transferred `sum ns` bytes, fewer than there are: with no further completion
  -- the transfer waits, its next call being on exactly the bytes behind them; an error or a
  -- cancellation of the next call is that of the transfer; and when the next call transfers the
  -- rest, the transfer completes with the number of all bytes. No assertion fails.
  pub async_read_write-cells :
      (ns : List ℕ) (s : State) (later : List (Signal ℕ)) (ec : ErrorCode)
      → IsTransfer s total
      → sum ns < sum_len s.rest
      → ((s' : State) × (async_read_write (map set_value ns ++ []) s ≡ done (waits s'))
          × (cells s'.rest ≡ drop (sum ns) (cells s.rest)))
        × (async_read_write (map set_value ns ++ set_error ec ∷ later) s
            ≡ done (completes (set_error ec)))
        × (async_read_write (map set_value ns ++ set_done ∷ later) s ≡ done (completes set_done))
        × (async_read_write (map set_value ns ++ set_value (sum_len s.rest - sum ns) ∷ later) s
            ≡ done (completes (set_value total)))
  unfolding async_read_write
  async_read_write-cells ns s later ec t less =
      let (s0, waited, same, _, _) = goes_on ns s [] t less in
      let n = sum_len s.rest - sum ns in
      let (s1, went_on, _, count, t1) = goes_on ns s (set_value n ∷ later) t less in
      let (_, called, _, _, _) =
        one_call s1 n total later t1 (omega (arith, t.accounted, t1.accounted, count)) in
      let finished : leb total (s1.processed_bytes + n) ≡ true =
        ground (arith, t.accounted, count) in
      let sum_all : s1.processed_bytes + n ≡ total = omega (arith, t.accounted, count) in
      (
        (s0, waited, same),
        (goes_on ns s (set_error ec ∷ later) t less).1,
        (goes_on ns s (set_done ∷ later) t less).1,
        went_on ∙ called ∙ rw (finished, sum_all),
      )

  -- A transfer of no bytes makes one call, and completes with 0 when that ends without an error.
  pub async_read_write-nothing :
      (s : State) (later : List (Signal ℕ))
      → IsTransfer s total
      → sum_len s.rest ≡ 0
      → async_read_write (set_value 0 ∷ later) s ≡ done (completes (set_value total))
  async_read_write-nothing s later t nothing =
      let (_, called, _, _, _) = one_call s 0 total later t (omega arith) in
      let finished : leb total (s.processed_bytes + 0) ≡ true = ground (arith, t.accounted) in
      let all : s.processed_bytes + 0 ≡ total = omega (arith, t.accounted) in
      called ∙ rw (finished, all)

-- The three ways in which `async_read` and `async_write` are called start a transfer of all bytes
-- of the buffers, where a size that is given is the right one.
pub start_state-IsTransfer :
    (b : BufferRef) (bs : List BufferRef)
    → b.len < 2 ^ 32
    → sum_len bs < 2 ^ 63
    → IsTransfer (start_state (one_buffer b)) b.len
      × IsTransfer (start_state (many_buffers bs)) (sum_len bs)
      × IsTransfer (start_state (many_buffers_of_size bs (sum_len bs))) (sum_len bs)
      × (cells (start_state (one_buffer b)).rest ≡ cells (b ∷ []))
      × (cells (start_state (many_buffers bs)).rest ≡ cells bs)
      × (cells (start_state (many_buffers_of_size bs (sum_len bs))).rest ≡ cells bs)
unfolding start_state one_buffer many_buffers many_buffers_of_size
start_state-IsTransfer b bs small room = (
  record { small = omega arith; accounted = omega arith; sized = inl refl },
  record { small = room; accounted = omega arith; sized = inr (refl, refl, refl, bs, refl) },
  record { small = room; accounted = omega arith; sized = inl refl },
  refl,
  refl,
  refl,
)
