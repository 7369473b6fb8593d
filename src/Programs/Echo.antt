-- ===== src/Programs/Echo.antt =====
-- unifex_TCP_simple_echo/main.cpp: the scattered buffers that the client sends.
pub mod Ranges
pub mod Exchange
pub mod Compare
use win_io.Base.{
  ℕ, zero, suc, ◌+◌, ◌-◌, ◌*◌, ◌^◌, ◌≤◌, ◌<◌, ◌≡◌, refl, sym, ap, ◌∙◌, arith, Option, none, some,
  List, [], ◌∷◌, ◌++◌, ltb, min, map, inl, inr, if◌then◌else◌, Bool-cases,
}
use win_io.Base.Outcome.{done}
use win_io.Os.{Ptr, dword}
use win_io.Sockets.Buffers.{BufferRef, many_buffers_of_size}
use win_io.Sockets.Transfer.{start_state, Signal, set_value, completes, async_read_write}
use win_io.Sockets.Transfer.Consume.{range, cells, sum_len, IsTransfer}
use win_io.Sockets.Transfer.Loop.{sum, async_read_write-cells}

-- 1024 * buffer_size_KBs
abbrev pub buffer_size : ℕ
buffer_size = 1024 * 1024

-- The loop that fills `to_write`, with fuel for its turns: none if that runs out.
unfoldable pub scatter : (write_data : Ptr) (size fuel processed : ℕ) → Option (List BufferRef)
scatter write_data size zero processed = if ltb processed size then none else some []
scatter write_data size (suc fuel) processed =
    let n = min (size - processed) buffer_size in
    let others = scatter write_data size fuel (processed + n) in
    if ltb processed size
    then elim others [
      | none ↦ none
      | some bs ↦ some (record { len = dword n; buf = write_data + processed } ∷ bs)
    ]
    else some []

range-append : (p m n : ℕ) → range p m ++ range (p + m) n ≡ range p (m + n)
range-append p zero n = ground arith
range-append p (suc m) n =
    let e : p + 1 + m ≡ p + suc m = omega arith in
    let e' : suc m + n ≡ suc (m + n) = omega arith in
    rw e' (ap (◌∷◌ p) (ap (λ q. range (p + 1) m ++ range q n) (sym e) ∙ range-append (p + 1) m n))

pub scatter-cells :
    (write_data size fuel processed : ℕ)
    → size ≤ processed + fuel * buffer_size
    → processed ≤ size
    → (bs : List BufferRef) × (scatter write_data size fuel processed ≡ some bs)
      × (sum_len bs ≡ size - processed)
      × (cells bs ≡ range (write_data + processed) (size - processed))
unfolding scatter
scatter-cells write_data size zero processed enough within =
    let none_left : size - processed ≡ 0 = omega (arith, enough) in
    ([], ground (arith, enough), omega (arith, none_left), rw none_left refl)
scatter-cells write_data size (suc fuel) processed enough within =
    elim (Bool-cases (ltb processed size)) [
      | inl more ↦
          let n = min (size - processed) buffer_size in
          let less : processed < size = ground (arith, more) in
          let (bs, filled, total, same) =
            scatter-cells write_data size fuel (processed + n) (omega (arith, enough, less))
              (omega (arith, less)) in
          let small : dword n ≡ n = omega arith in
          let parts : n + (size - (processed + n)) ≡ size - processed = omega (arith, less) in
          let there : write_data + (processed + n) ≡ write_data + processed + n = omega arith in
          (
            record { len = dword n; buf = write_data + processed } ∷ bs,
            rw (more, filled) refl,
            rw (small, total) parts,
            rw (small, same, there)
                (range-append (write_data + processed) n (size - (processed + n))
                  ∙ ap (range (write_data + processed)) parts),
          )
      | inr finished ↦
          let none_left : size - processed ≡ 0 = ground (arith, finished) in
          ([], rw finished refl, omega (arith, none_left), rw none_left refl)
    ]

-- The loop ends, in one turn for each MiB or part of it, with buffers that lie behind each other and
-- hold exactly the data. When the client's `async_write` of them has transferred some bytes, fewer
-- than there are, and then the others, it completes with the size of the data.
pub scatter-async_read_write :
    (write_data size fuel : ℕ) (ns : List ℕ) (later : List (Signal ℕ))
    → size ≤ fuel * buffer_size
    → size < 2 ^ 63
    → sum ns < size
    → (bs : List BufferRef) × (scatter write_data size fuel 0 ≡ some bs)
      × (cells bs ≡ range write_data size)
      × (async_read_write
            (map set_value ns ++ set_value (size - sum ns) ∷ later)
            (start_state (many_buffers_of_size bs size))
          ≡ done (completes (set_value size)))
unfolding start_state many_buffers_of_size
scatter-async_read_write write_data size fuel ns later enough small less =
    let (bs, filled, total, same) =
      scatter-cells write_data size fuel 0 (omega (arith, enough)) (omega arith) in
    let s = start_state (many_buffers_of_size bs size) in
    let transfer : IsTransfer s size = record {
      small = small;
      accounted = omega (arith, total);
      sized = inl refl;
    } in
    let (_, _, _, whole) =
      async_read_write-cells size ns s later 0 transfer (omega (arith, less, total)) in
    let all : sum_len bs ≡ size = omega (arith, total) in
    (bs, filled, same ∙ ground arith, rw all at whole)
