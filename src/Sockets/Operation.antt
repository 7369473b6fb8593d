-- ===== src/Sockets/Operation.antt =====
-- win_socks/include/unifex_IOCP_sockets.hpp: what the operation states of single calls share.
-- A call of Winsock is an argument, a function to what the call returns and writes. Each operation
-- state is started once, and makes each call at most once.
pub mod ReadWrite
pub mod Connect
pub mod Completion
pub mod Connection
use win_io.Base.{
  ℕ, ◌+◌, ◌*◌, ◌/◌, ◌%◌, ◌^◌, Bool, true, false, not, ◌&&◌, ◌||◌, Option, none, some, List, [], ◌∷◌,
  ◌==◌, if◌then◌else◌,
}
use win_io.Base.Outcome.{Outcome, done, ◌>>=◌, ◌>>◌, assert}
use win_io.Os.{
  Ptr, null, is_null, invalid_handle, ErrorCode, no_error, is_error, minus_one, error_io_pending,
}
use win_io.Port.{PortEntry, port_entry}
use win_io.Sockets.Buffers.{BufferRef, OneBufferOwnerOrManyRef, as_ref, has_data}
use win_io.Sockets.Transfer.{Signal, set_value, set_error, set_done}

-- kClientKeyIOCP
abbrev pub client_key : ℕ
client_key = 1

pub record EndpointIpv4 : Type 0 where
  pub port_network : ℕ
  pub ip_network : ℕ

-- htons, on a machine with the low byte first.
abbrev pub htons : ℕ → ℕ
htons port = port % 256 * 256 + port / 256 % 256

-- Endpoint_IPv4::from_string; `inet_pton` is what it finds in the text.
unfoldable pub endpoint_from_string :
    {Text : Type 0} → (Text → Option ℕ) → Text → ℕ → Option EndpointIpv4
endpoint_from_string inet_pton src port_host = elim (inet_pton src) [
  | none ↦ none
  | some s_addr ↦ some (record { port_network = htons port_host; ip_network = s_addr })
]

-- Endpoint_IPv4::any, with INADDR_ANY.
unfoldable pub endpoint_any : ℕ → EndpointIpv4
endpoint_any port_host = record { port_network = htons port_host; ip_network = 0 }

-- What the receiver's stop token says, when the operation completes, of a request to stop.
pub data StopToken : Type 0 where
  never_possible : StopToken
  token : (requested : Bool) → StopToken

-- Helper_HandleStopToken::try_finalize
unfoldable pub try_finalize : StopToken → Bool
try_finalize never_possible = false
try_finalize (token requested) = requested

-- How far `start` gets: the receiver is called, or the system has the operation.
pub data Started {ℓ} (A : Type ℓ) : Type ℓ where
  completed : Signal A → Started A
  pending : Started A

-- An operation state: its socket, the address of its OVERLAPPED, and its receiver's token.
pub record Operation : Type 0 where
  pub socket : Ptr
  pub ov : Ptr
  pub stop : StopToken

-- ERROR_NOT_FOUND
abbrev pub error_not_found : ErrorCode
error_not_found = 1168

-- Helper_CancelIoEx. `cancel` is CancelIoEx, with what GetLastError is then.
unfoldable pub cancel_io_ex :
    (cancel : (handle ov : Ptr) → Bool × ErrorCode) → (socket ov : Ptr) → Outcome (Unit {0})
cancel_io_ex cancel socket ov =
    let (ok, error) = cancel socket ov in
    if not ok then assert (error == error_not_found) else done tt

-- `try_stop` of an operation, which the stop callback calls.
unfoldable pub try_stop :
    (cancel : (handle ov : Ptr) → Bool × ErrorCode) → Operation → Outcome (Unit {0})
try_stop cancel self = cancel_io_ex cancel self.socket self.ov

-- sockaddr_in
pub record SocketAddress : Type 0 where
  pub sin_family : ℕ
  pub sin_port : ℕ
  pub s_addr : ℕ

abbrev pub af_inet : ℕ
af_inet = 2

abbrev pub socket_address : EndpointIpv4 → SocketAddress
socket_address e = record { sin_family = af_inet; sin_port = e.port_network; s_addr = e.ip_network }

-- What WSASend, WSASendTo, WSARecv and WSARecvFrom return: 0 or the error, and the bytes.
pub record Transferred : Type 0 where
  pub error : ErrorCode
  pub bytes : ℕ

-- How the four `start`s of reads and writes go on behind their call.
abbrev pub complete_or_wait :
    Operation → Transferred → (PortEntry → ErrorCode → Outcome (Signal ℕ)) → Outcome (Started ℕ)
complete_or_wait self r callback =
    if r.error == 0
    then (do s ← callback (port_entry r.bytes client_key self.ov) no_error; done (completed s))
    else if not (r.error == error_io_pending)
    then (do s ← callback (port_entry 0 client_key self.ov) r.error; done (completed s))
    else done pending
