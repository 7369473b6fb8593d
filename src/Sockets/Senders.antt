-- ===== src/Sockets/Senders.antt =====
-- win_socks/include/unifex_IOCP_sockets.hpp: the senders of single calls, which the member functions of
-- Async_TCPSocket and Async_UDPSocket make, and `async_read` and `async_write` on top of them.
pub mod Calls
mod Examples
use win_io.Base.{ℕ, ◌^◌, ◌-◌, leb, List, Bool}
use win_io.Base.Outcome.{Outcome, done, ◌>>=◌, ◌>>◌, assert}
use win_io.Os.{Ptr, dword}
use win_io.Sockets.Buffers.{
  BufferRef, OneBufferOwnerOrManyRef, one_buffer, many_buffers, many_buffers_of_size,
}
use win_io.Sockets.Transfer.{State, start_state}
use win_io.Sockets.Operation.{EndpointIpv4, StopToken, never_possible, Operation}
use win_io.Sockets.Handles.{AsyncSocket}

-- A span of chars.
pub record CharSpan : Type 0 where
  pub start : Ptr
  pub size : ℕ

-- Sender_Connect
pub record SenderConnect : Type 0 where
  pub socket : Ptr
  pub endpoint : EndpointIpv4

-- Sender_Accept
pub record SenderAccept : Type 0 where
  pub listen_socket : Ptr
  pub iocp : Ptr

-- Sender_WriteSome
pub record SenderWriteSome : Type 0 where
  pub socket : Ptr
  pub buffers : OneBufferOwnerOrManyRef

-- Sender_ReadSome
pub record SenderReadSome : Type 0 where
  pub socket : Ptr
  pub buffers : OneBufferOwnerOrManyRef

-- Sender_SendTo
pub record SenderSendTo : Type 0 where
  pub socket : Ptr
  pub buffers : OneBufferOwnerOrManyRef
  pub destination : EndpointIpv4

-- Sender_ReceiveFrom
pub record SenderReceiveFrom : Type 0 where
  pub socket : Ptr
  pub buffers : OneBufferOwnerOrManyRef
  pub sender : Ptr

-- The `connect` functions of the senders: the operation state, and what it has besides. The token is
-- the receiver's, and `ov` is the address of the OVERLAPPED in the new operation state.
unfoldable pub connect_operation : SenderConnect → StopToken → (ov : Ptr) → Operation × EndpointIpv4
connect_operation self stop ov =
    (record { socket = self.socket; ov = ov; stop = stop }, self.endpoint)

-- Operation_Accept asks for no token.
unfoldable pub accept_operation : SenderAccept → (ov : Ptr) → Operation × Ptr
accept_operation self ov =
    (record { socket = self.listen_socket; ov = ov; stop = never_possible }, self.iocp)

unfoldable pub write_some_operation :
    SenderWriteSome → StopToken → (ov : Ptr) → Operation × OneBufferOwnerOrManyRef
write_some_operation self stop ov =
    (record { socket = self.socket; ov = ov; stop = stop }, self.buffers)

unfoldable pub read_some_operation :
    SenderReadSome → StopToken → (ov : Ptr) → Operation × OneBufferOwnerOrManyRef
read_some_operation self stop ov =
    (record { socket = self.socket; ov = ov; stop = stop }, self.buffers)

unfoldable pub send_to_operation :
    SenderSendTo → StopToken → (ov : Ptr) → Operation × OneBufferOwnerOrManyRef × EndpointIpv4
send_to_operation self stop ov =
    (record { socket = self.socket; ov = ov; stop = stop }, self.buffers, self.destination)

unfoldable pub receive_from_operation :
    SenderReceiveFrom → StopToken → (ov : Ptr) → Operation × OneBufferOwnerOrManyRef × Ptr
receive_from_operation self stop ov =
    (record { socket = self.socket; ov = ov; stop = stop }, self.buffers, self.sender)

-- The assertion on the size of a span, and the BufferRef of the span.
unfoldable pub buffer_of_span : CharSpan → Outcome BufferRef
buffer_of_span span = do
  assert (leb span.size (2 ^ 32 - 1))
  done (record { len = dword span.size; buf = span.start })

-- Async_TCPSocket::async_connect
unfoldable pub async_connect : AsyncSocket → EndpointIpv4 → SenderConnect
async_connect self endpoint = record { socket = self.socket; endpoint = endpoint }

-- Async_TCPSocket::async_accept
unfoldable pub async_accept : AsyncSocket → SenderAccept
async_accept self = record { listen_socket = self.socket; iocp = self.iocp }

-- Async_TCPSocket::async_write_some
unfoldable pub async_write_some : AsyncSocket → CharSpan → Outcome SenderWriteSome
unfolding buffer_of_span one_buffer
async_write_some self span = do
  b ← buffer_of_span span
  done (record { socket = self.socket; buffers = one_buffer b })

unfoldable pub async_write_some_buffers : AsyncSocket → List BufferRef → SenderWriteSome
unfolding many_buffers
async_write_some_buffers self bs = record { socket = self.socket; buffers = many_buffers bs }

-- Async_TCPSocket::async_read_some
unfoldable pub async_read_some : AsyncSocket → CharSpan → Outcome SenderReadSome
unfolding buffer_of_span one_buffer
async_read_some self span = do
  b ← buffer_of_span span
  done (record { socket = self.socket; buffers = one_buffer b })

unfoldable pub async_read_some_buffers : AsyncSocket → List BufferRef → SenderReadSome
unfolding many_buffers
async_read_some_buffers self bs = record { socket = self.socket; buffers = many_buffers bs }

-- Async_UDPSocket::async_send_to
unfoldable pub async_send_to : AsyncSocket → CharSpan → EndpointIpv4 → Outcome SenderSendTo
unfolding buffer_of_span one_buffer
async_send_to self span destination = do
  b ← buffer_of_span span
  done (record { socket = self.socket; buffers = one_buffer b; destination = destination })

unfoldable pub async_send_to_buffers : AsyncSocket → List BufferRef → EndpointIpv4 → SenderSendTo
unfolding many_buffers
async_send_to_buffers self bs destination = record {
  socket = self.socket;
  buffers = many_buffers bs;
  destination = destination;
}

-- Async_UDPSocket::async_receive_from; `sender` is an address.
unfoldable pub async_receive_from :
    AsyncSocket → CharSpan → (sender : Ptr) → Outcome SenderReceiveFrom
unfolding buffer_of_span one_buffer
async_receive_from self span sender = do
  b ← buffer_of_span span
  done (record { socket = self.socket; buffers = one_buffer b; sender = sender })

unfoldable pub async_receive_from_buffers :
    AsyncSocket → List BufferRef → (sender : Ptr) → SenderReceiveFrom
unfolding many_buffers
async_receive_from_buffers self bs sender = record {
  socket = self.socket;
  buffers = many_buffers bs;
  sender = sender;
}

-- State_AsyncReadWrite::remaining
unfoldable pub remaining : State → List BufferRef
remaining s = s.rest

-- State_AsyncReadWrite::do_write and do_read
unfoldable pub do_write : AsyncSocket → List BufferRef → SenderWriteSome
unfolding async_write_some_buffers
do_write tcp_socket bs = async_write_some_buffers tcp_socket bs

unfoldable pub do_read : AsyncSocket → List BufferRef → SenderReadSome
unfolding async_read_some_buffers
do_read tcp_socket bs = async_read_some_buffers tcp_socket bs

-- `async_read` and `async_write`, up to the state in which their loop starts: for a span, for buffers,
-- and for buffers with their total size. The two differ in `do_read` and `do_write` alone.
unfoldable pub transfer_span : CharSpan → Outcome State
unfolding buffer_of_span one_buffer start_state
transfer_span span = do b ← buffer_of_span span; done (start_state (one_buffer b))

unfoldable pub transfer_buffers : List BufferRef → State
unfolding many_buffers start_state
transfer_buffers bs = start_state (many_buffers bs)

unfoldable pub transfer_buffers_of_size : List BufferRef → (total_size : ℕ) → State
unfolding many_buffers_of_size start_state
transfer_buffers_of_size bs total_size = start_state (many_buffers_of_size bs total_size)
