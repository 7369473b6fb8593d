-- ===== src/Sockets/Resolve.antt =====
-- win_socks/include/unifex_IOCP_sockets.hpp: the resolution of a host name, Operation_Resolve, and
-- EndpointsList_IPv4, which owns its result. The system's functions are arguments; a text is the list
-- of its characters.
pub mod Names
pub mod Endpoints
pub mod Runs
pub mod Senders
mod Examples
use win_io.Base.{
  ℕ, ◌-◌, Bool, true, false, not, Option, none, some, List, [], ◌∷◌, ◌++◌, ◌==◌, length, replicate,
  if◌then◌else◌,
}
use win_io.Base.Outcome.{Outcome, done, ◌>>=◌, ◌>>◌, assert}
use win_io.Os.{Ptr, null, is_null, ErrorCode, no_error, is_error, error_io_pending, dword}
use win_io.Port.{PortEntry, port_entry, PortApi, IoCompletionPort, post}
use win_io.Sockets.Transfer.{Signal, set_value, set_error, set_done}
use win_io.Sockets.Operation.{
  EndpointIpv4, StopToken, never_possible, token, try_finalize, Started, completed, pending,
  SocketAddress,
}

-- ADDRINFOEXW, with what `ai_addr` points to.
pub record AddrInfo : Type 0 where
  pub ai_addrlen : ℕ
  pub ai_addr : SocketAddress
  pub ai_next : Ptr

-- The iterator is the address that it holds. `get` is operator* too.
unfoldable pub get : (addr_info : Ptr → AddrInfo) → Ptr → Outcome EndpointIpv4
get addr_info address_list = do
  assert (not (is_null address_list))
  assert ((addr_info address_list).ai_addrlen == 16)
  let ipv4 = (addr_info address_list).ai_addr
  done (record { port_network = ipv4.sin_port; ip_network = ipv4.s_addr })

-- `operator++`: the iterator afterwards.
unfoldable pub next : (addr_info : Ptr → AddrInfo) → Ptr → Outcome Ptr
next addr_info address_list = do
  assert (not (is_null address_list))
  done (addr_info address_list).ai_next

-- `destroy`, which the destructor calls: what is given to FreeAddrInfoExW, and the list afterwards.
unfoldable pub destroy : Ptr → List Ptr × Ptr
destroy address_list = if not (is_null address_list) then (address_list ∷ [], null) else ([], null)

-- The move assignment from another list: what is freed, this list, and the other one.
unfoldable pub move_list : (this rhs : Ptr) → List Ptr × Ptr × Ptr
unfolding destroy
move_list this rhs = ((destroy this).0, rhs, null)

-- Resolve_Hint
pub record ResolveHint : Type 0 where
  pub type : ℕ
  pub protocol : ℕ

-- With SOCK_STREAM and IPPROTO_TCP.
unfoldable pub hint_tcp : ResolveHint
hint_tcp = record { type = 1; protocol = 6 }

-- With SOCK_DGRAM and IPPROTO_UDP.
unfoldable pub hint_udp : ResolveHint
hint_udp = record { type = 2; protocol = 17 }

-- The size of `_whost_name` and `_wservice_name`.
abbrev pub name_size : ℕ
name_size = 256

-- The buffer for a name, of zeros at first, when `start` has converted the name into it.
-- `to_wide` is MultiByteToWideChar: what it writes, or none when it returns 0.
unfoldable pub wide_name : (to_wide : List ℕ → Option (List ℕ)) → List ℕ → Outcome (List ℕ)
wide_name to_wide name =
    if not (length name == 0)
    then elim (to_wide name) [
      | none ↦ do assert false; done []
      | some written ↦ done (written ++ replicate (name_size - length written) 0)
    ]
    else done (replicate name_size 0)

-- The operation. `atomic_stop` and `cancel_handle` are addresses or handles; `address` is that of
-- `_cancel_handle`.
pub record Resolve : Type 0 where
  pub iocp_ov : Ptr
  pub address : Ptr
  pub hint : ResolveHint
  pub host_name : List ℕ
  pub service_name_or_port : List ℕ
  pub results : Ptr
  pub cancel_handle : Ptr
  pub atomic_stop : Ptr
  pub stop : StopToken

-- on_addrinfo_finish. The value is the list that an EndpointsList_IPv4 is made of.
unfoldable pub on_addrinfo_finish : Resolve → PortEntry → ErrorCode → Signal Ptr × Resolve
unfolding try_finalize
on_addrinfo_finish self entry ec =
    if try_finalize self.stop
    then (set_done, record self { cancel_handle = null; atomic_stop = null })
    else if is_error ec
    then (set_error ec, self)
    else let error = dword entry.completion_key in
      if not (error == 0) then (set_error error, self) else (set_value self.results, self)

-- The entry that stands for the end of a resolution.
abbrev pub end_entry : Resolve → (error bytes : ℕ) → PortEntry
end_entry self error bytes = port_entry bytes error self.iocp_ov

-- on_complete_WindowsThread. The receiver is called here only if the entry cannot be posted.
unfoldable pub on_complete_windows :
    (api : PortApi)
    → IoCompletionPort
    → (error bytes : ℕ) → Resolve
    → api.World
    → Option (Signal Ptr × Resolve) × api.World
on_complete_windows api iocp error bytes self w =
    let (ec, w') = post api iocp (end_entry self error bytes) w in
    if is_error ec
    then (some (on_addrinfo_finish self (end_entry self error bytes) ec), w')
    else (none, w')

-- try_stop: what GetAddrInfoExCancel is called with, if it is.
unfoldable pub try_stop : Resolve → Option Ptr × Resolve
try_stop self =
    let self' : Resolve = record self { atomic_stop = null } in
    if is_null self.atomic_stop then (none, self') else (some self.atomic_stop, self')

-- What GetAddrInfoExW is asked for. `cancel` is null if the operation can not be stopped.
pub record AddrInfoRequest : Type 0 where
  pub host : List ℕ
  pub service : List ℕ
  pub hint : ResolveHint
  pub cancel : Ptr

-- Whether `try_construct` returns that a stop is possible: for a token that can be stopped.
unfoldable pub try_construct : StopToken → (stop_possible : Bool) → Bool
try_construct never_possible stop_possible = false
try_construct (token requested) stop_possible = stop_possible

-- `start`, up to the call of GetAddrInfoExW.
unfoldable pub request_of :
    (to_wide : List ℕ → Option (List ℕ))
    → (stop_possible : Bool) → Resolve
    → Outcome AddrInfoRequest
unfolding wide_name try_construct
request_of to_wide stop_possible self = do
  host ← wide_name to_wide self.host_name
  service ← wide_name to_wide self.service_name_or_port
  let cancel_ptr = if try_construct self.stop stop_possible then self.address else null
  done (record { host = host; service = service; hint = self.hint; cancel = cancel_ptr })

-- `start`, from the return of GetAddrInfoExW, which has written `_results`, to where the operation
-- completes or is left to the system.
unfoldable pub on_called : (error : ErrorCode) → Resolve → Started Ptr × Resolve
unfolding on_addrinfo_finish
on_called error self =
    if error == 0
    then (let (s, self') = on_addrinfo_finish self (end_entry self 0 0) no_error in
        (completed s, self'))
    else if not (error == error_io_pending)
    then (let (s, self') = on_addrinfo_finish self (end_entry self error 0) no_error in
        (completed s, self'))
    else (pending, self)

-- The end of `start` when the operation is left to the system.
unfoldable pub arm_stop : (cancel_ptr : Ptr) → Resolve → Resolve
arm_stop cancel_ptr self =
    if not (is_null cancel_ptr) then record self { atomic_stop = cancel_ptr } else self

-- `start`. `call` is GetAddrInfoExW: what it returns, and what `_results` is then.
unfoldable pub start :
    (to_wide : List ℕ → Option (List ℕ)) (stop_possible : Bool)
    (call : AddrInfoRequest → ErrorCode × Ptr)
    → Resolve
    → Outcome (Started Ptr × Resolve)
unfolding request_of on_called arm_stop
start to_wide stop_possible call self = do
  request ← request_of to_wide stop_possible self
  let (error, results) = call request
  let (started, self') = on_called error (record self { results = results })
  elim started [
    | completed s ↦ done (completed s, self')
    | pending ↦ done (pending, arm_stop request.cancel self')
  ]
