-- ===== src/Sockets/Resolve/Senders.antt =====
-- win_socks/include/unifex_IOCP_sockets.hpp: the sender of a resolution.
use win_io.Base.{ℕ, List}
use win_io.Os.{Ptr, null, invalid_handle}
use win_io.Sockets.Operation.{StopToken}
use win_io.Sockets.Resolve.{ResolveHint, Resolve}

-- Sender_Resolve
pub record SenderResolve : Type 0 where
  pub iocp : Ptr
  pub hint : ResolveHint
  pub host_name : List ℕ
  pub service_name_or_port : List ℕ

unfoldable pub async_resolve :
    (iocp : Ptr) → ResolveHint → (host_name service_name_or_port : List ℕ) → SenderResolve
async_resolve iocp hint host_name service_name_or_port = record {
  iocp = iocp;
  hint = hint;
  host_name = host_name;
  service_name_or_port = service_name_or_port;
}

-- Its `connect`: the operation, with the addresses of its OVERLAPPED and of its `_cancel_handle`, and the
-- port.
unfoldable pub resolve_operation :
    SenderResolve → StopToken → (iocp_ov address : Ptr) → Resolve × Ptr
resolve_operation self stop iocp_ov address = (
  record {
    iocp_ov = iocp_ov;
    address = address;
    hint = self.hint;
    host_name = self.host_name;
    service_name_or_port = self.service_name_or_port;
    results = null;
    cancel_handle = invalid_handle;
    atomic_stop = null;
    stop = stop;
  },
  self.iocp,
)
