-- ===== src/Sockets/RangeConnect.antt =====
-- win_socks/include/unifex_IOCP_sockets.hpp: Operation_RangeConnect, which connects to one endpoint
-- after another, until one accepts.
pub mod First
use win_io.Base.{ℕ, List, [], ◌∷◌}
use win_io.Base.Outcome.{Outcome, done, failed_assert, ◌>>=◌}
use win_io.Os.{Ptr, ErrorCode, minus_one}
use win_io.Sockets.Transfer.{Signal, set_value, set_error, set_done}

-- `_endpoints` from `_current_endpoint` on, and `_last_error`.
pub record RangeConnect {ℓ} (Endpoint : Type ℓ) : Type ℓ where
  pub endpoints : List Endpoint
  pub last_error : ErrorCode

-- Whether the operation has completed, or waits for the connection to the current endpoint.
pub data Connecting {ℓ} (Endpoint : Type ℓ) : Type ℓ where
  completes : Signal Endpoint → Connecting Endpoint
  connects : RangeConnect Endpoint → Connecting Endpoint

-- Sender_RangeConnect; `socket` is the address of the socket.
pub record SenderRangeConnect {ℓ} (Endpoint : Type ℓ) : Type ℓ where
  pub socket : Ptr
  pub endpoints : List Endpoint

module _ {ℓ} {Endpoint : Type ℓ} where
  unfoldable pub start_next_connect : RangeConnect Endpoint → Connecting Endpoint
  start_next_connect self = elim self.endpoints [
    | [] ↦ completes (set_error self.last_error)
    | _ ∷ _ ↦ connects self
  ]

  unfoldable pub start : List Endpoint → Connecting Endpoint
  unfolding start_next_connect
  start endpoints = start_next_connect (record { endpoints = endpoints; last_error = minus_one })

  -- It is undefined behind the last endpoint.
  unfoldable pub on_connect_error :
      RangeConnect Endpoint → ErrorCode → Outcome (Connecting Endpoint)
  unfolding start_next_connect
  on_connect_error self ec = elim self.endpoints [
    | [] ↦ failed_assert
    | _ ∷ further ↦ done (start_next_connect (record { endpoints = further; last_error = ec }))
  ]

  -- Receiver_Connect and on_connect_success: what the connection to the current endpoint tells.
  unfoldable pub on_connect :
      Signal (Unit {0}) → RangeConnect Endpoint → Outcome (Connecting Endpoint)
  unfolding on_connect_error
  on_connect (set_value _) self = elim self.endpoints [
    | [] ↦ failed_assert
    | endpoint ∷ _ ↦ done (completes (set_value endpoint))
  ]
  on_connect (set_error ec) self = on_connect_error self ec
  on_connect set_done self = failed_assert

  -- The operation, with what the connections that it starts tell it, in order.
  unfoldable pub run :
      List (Signal (Unit {0})) → Connecting Endpoint → Outcome (Connecting Endpoint)
  unfolding on_connect
  run signals (completes s) = done (completes s)
  run [] (connects self) = done (connects self)
  run (signal ∷ signals) (connects self) = on_connect signal self >>= run signals

  -- `async_connect` to a range.
  unfoldable pub async_connect_range : Ptr → List Endpoint → SenderRangeConnect Endpoint
  async_connect_range socket endpoints = record { socket = socket; endpoints = endpoints }

  -- Its `connect`: the socket, and the endpoints that `start` is called on.
  unfoldable pub range_operation : SenderRangeConnect Endpoint → Ptr × List Endpoint
  range_operation self = (self.socket, self.endpoints)
