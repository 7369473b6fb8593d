-- ===== src/Sockets/Senders/Calls.antt =====
-- What the senders of single calls pass to Winsock.
use win_io.Base.{
  ℕ, ◌-◌, ◌^◌, ◌≤◌, ◌<◌, ◌≡◌, refl, ◌∙◌, subst, arith, true, false, leb, List, append-nil, ap, some,
}
use win_io.Base.Outcome.{done, failed_assert}
use win_io.Os.{Ptr, dword}
use win_io.Sockets.Buffers.{BufferRef, OneBufferOwnerOrManyRef, as_ref, one_buffer}
use win_io.Sockets.Transfer.{State, start_state}
use win_io.Sockets.Transfer.Consume.{range, cells, sum_len, IsTransfer}
use win_io.Sockets.Transfer.Loop.{start_state-IsTransfer}
use win_io.Sockets.Operation.{EndpointIpv4, StopToken, Operation}
use win_io.Sockets.Handles.{AsyncSocket}
use win_io.Sockets.Senders.{
  CharSpan, SenderWriteSome, SenderReadSome, SenderSendTo, SenderReceiveFrom, write_some_operation,
  read_some_operation, send_to_operation, receive_from_operation, async_write_some, async_read_some,
  async_send_to, async_receive_from, transfer_span, transfer_buffers, transfer_buffers_of_size,
}

-- An operation state on a span: it is on this socket, with this OVERLAPPED and token, and its buffers
-- hold exactly the addresses of the span.
pub record IsFor (self : AsyncSocket) (span : CharSpan) (stop : StopToken) (ov : Ptr)
    (o : Operation) (b : OneBufferOwnerOrManyRef) : Type 0 where
  pub state : o ≡ record { socket = self.socket; ov = ov; stop = stop }
  pub bytes : cells (as_ref b) ≡ range span.start span.size
  pub total : b.total_size ≡ some span.size

span-bytes : (span : CharSpan) → span.size < 2 ^ 32 → dword span.size ≡ span.size
span-bytes span small = omega (arith, small)

module _ (self : AsyncSocket) (span : CharSpan) (stop : StopToken) (ov : Ptr) where
  one_buffer-IsFor :
      (size : ℕ)
      → size ≡ span.size
      → IsFor self span stop ov
          (record { socket = self.socket; ov = ov; stop = stop })
          (one_buffer (record { len = size; buf = span.start }))
  unfolding one_buffer as_ref
  one_buffer-IsFor size same = record {
    state = refl;
    bytes = rw same (append-nil (range span.start span.size));
    total = ap some same;
  }

  -- For a span of less than 4 GiB the four functions that take one give a sender, whose operation
  -- state is on the socket, with the receiver's token and its own OVERLAPPED, and has buffers of
  -- exactly the span's bytes. The two for datagrams keep the endpoint.
  pub async_write_some-IsFor :
      (destination : EndpointIpv4) (sender : Ptr)
      → span.size < 2 ^ 32
      → ((w : SenderWriteSome) × (async_write_some self span ≡ done w)
          × (let (o, b) = write_some_operation w stop ov in IsFor self span stop ov o b))
        × ((r : SenderReadSome) × (async_read_some self span ≡ done r)
            × (let (o, b) = read_some_operation r stop ov in IsFor self span stop ov o b))
        × ((s : SenderSendTo) × (async_send_to self span destination ≡ done s)
            × (let (o, b, to) = send_to_operation s stop ov in
                IsFor self span stop ov o b × (to ≡ destination)))
        × ((f : SenderReceiveFrom) × (async_receive_from self span sender ≡ done f)
            × (let (o, b, from) = receive_from_operation f stop ov in
                IsFor self span stop ov o b × (from ≡ sender)))
  unfolding async_write_some async_read_some async_send_to async_receive_from write_some_operation
      read_some_operation send_to_operation receive_from_operation
  async_write_some-IsFor destination sender small =
      let fits : leb span.size (2 ^ 32 - 1) ≡ true = ground (arith, small) in
      let is_for = one_buffer-IsFor (dword span.size) (span-bytes span small) in
      let b = one_buffer (record { len = dword span.size; buf = span.start }) in
      let s = self.socket in
      (
        (record { socket = s; buffers = b }, rw fits refl, is_for),
        (record { socket = s; buffers = b }, rw fits refl, is_for),
        (
          record { socket = s; buffers = b; destination = destination },
          rw fits refl,
          (is_for, refl),
        ),
        (record { socket = s; buffers = b; sender = sender }, rw fits refl, (is_for, refl)),
      )

  -- A span of 4 GiB or more fails the assertion of all four, and of `async_read` and `async_write`.
  pub async_write_some-too_large :
      (destination : EndpointIpv4) (sender : Ptr)
      → 2 ^ 32 ≤ span.size
      → (async_write_some self span ≡ failed_assert)
        × (async_read_some self span ≡ failed_assert)
        × (async_send_to self span destination ≡ failed_assert)
        × (async_receive_from self span sender ≡ failed_assert)
        × (transfer_span span ≡ failed_assert)
  unfolding async_write_some async_read_some async_send_to async_receive_from transfer_span
  async_write_some-too_large destination sender large =
      let too_large : leb span.size (2 ^ 32 - 1) ≡ false = ground (arith, large) in
      rw too_large (refl, refl, refl, refl, refl)

-- Each of the three ways to call `async_read` and `async_write` starts a transfer of all bytes of its
-- span or buffers, in their order: a span of less than 4 GiB; buffers; and buffers with a total size
-- that is right. The sizes are below 2^63.
pub transfer_span-IsTransfer :
    (span : CharSpan) (bs : List BufferRef)
    → span.size < 2 ^ 32
    → sum_len bs < 2 ^ 63
    → ((s : State) × (transfer_span span ≡ done s)
        × IsTransfer s span.size
        × (cells s.rest ≡ range span.start span.size))
      × IsTransfer (transfer_buffers bs) (sum_len bs)
      × (cells (transfer_buffers bs).rest ≡ cells bs)
      × IsTransfer (transfer_buffers_of_size bs (sum_len bs)) (sum_len bs)
      × (cells (transfer_buffers_of_size bs (sum_len bs)).rest ≡ cells bs)
unfolding transfer_span transfer_buffers transfer_buffers_of_size
transfer_span-IsTransfer span bs small room =
    let fits : leb span.size (2 ^ 32 - 1) ≡ true = ground (arith, small) in
    let b : BufferRef = record { len = dword span.size; buf = span.start } in
    let same = span-bytes span small in
    let (one, many, sized, of_one, of_many, of_sized) =
      start_state-IsTransfer b bs (omega (arith, small, same)) room in
    (
      (
        start_state (one_buffer b),
        rw fits refl,
        subst (IsTransfer (start_state (one_buffer b))) same one,
        of_one ∙ rw same (append-nil (range span.start span.size)),
      ),
      many,
      of_many,
      sized,
      of_sized,
    )
