-- ===== src/Sockets/Wait.antt =====
-- win_socks/include/unifex_IOCP_sockets.hpp: IOCP_sync_wait, which serves a port until the sender that
-- it has started is finished, and StopReceiver.
pub mod Serving
mod Examples
use win_io.Base.{
  ℕ, zero, suc, Bool, true, false, not, Option, none, some, List, [], ◌∷◌, if◌then◌else◌,
}
use win_io.Base.Outcome.{Outcome, done, failed_assert, ◌>>=◌, ◌>>◌, assert}
use win_io.Os.{Ptr, is_null, ErrorCode}
use win_io.Port.{PortEntry, PortApi, IoCompletionPort, get_many}

-- `_callback` of an IOCP_Overlapped, with its `_user_data`: it may change the state of the program and,
-- as by a post to the port, that of the system.
abbrev pub Callback : (S World : Type 0) → Type 0
Callback S World = S → World → PortEntry → ErrorCode → Outcome (S × World)

-- The state of the program, and how it tells whether StopReceiver has been called (`_finish`);
-- `callback_at` is the callback of the IOCP_Overlapped at an address, none if that is null.
module _ {S : Type 0} (api : PortApi) (finish : S → Bool)
    (callback_at : Ptr → Option (Callback S api.World)) where
  -- The body of the `for` loop.
  unfoldable pub invoke : PortEntry → ErrorCode → S → api.World → Outcome (S × api.World)
  invoke entry ec s w = do
    assert (not (is_null entry.overlapped))
    elim (callback_at entry.overlapped) [
      | none ↦ failed_assert
      | some callback ↦ callback s w entry ec
    ]

  unfoldable pub invoke_all : List PortEntry → ErrorCode → S → api.World → Outcome (S × api.World)
  invoke_all [] ec s w = done (s, w)
  invoke_all (entry ∷ entries) ec s w = do
    (s', w') ← invoke entry ec s w
    invoke_all entries ec s' w'

  -- The `while` loop, with fuel for its turns: none if that runs out.
  unfoldable pub sync_wait :
      IoCompletionPort → (fuel : ℕ) → S → api.World → Option (Outcome (S × api.World))
  sync_wait iocp zero s w = if finish s then some (done (s, w)) else none
  sync_wait iocp (suc fuel) s w =
      if finish s
      then some (done (s, w))
      else let (entries, ec, w') = get_many api iocp 4 false w in
        elim (invoke_all entries ec s w') [
          | failed_assert ↦ some failed_assert
          | done after ↦ sync_wait iocp fuel after.0 after.1
        ]
