-- ===== src/Sockets/Select.antt =====
-- win_socks/include/unifex_IOCP_sockets.hpp: SelectOnceInN, a scheduler that hands every N-th piece
-- of work to one scheduler and the others to a fallback.
pub mod Turns
use win_io.Base.{
  ℕ, zero, suc, ◌+◌, ◌%◌, ◌^◌, Bool, true, false, ◌==◌, ltb, if◌then◌else◌, List, [], ◌∷◌,
}
use win_io.Base.Outcome.{Outcome, done, failed_assert, ◌>>=◌, ◌>>◌, assert}
use win_io.Sockets.Transfer.{Signal}

-- Op_State
pub data OpState : Type 0 where
  monostate : OpState
  scheduler : OpState
  fallback : OpState

-- Operation_SelectOnceInN::start, up to the start of the operation that it selects: the counter and
-- `_op`.
unfoldable pub select_start : (counter n : ℕ) → Outcome (ℕ × OpState)
select_start counter n = do
  assert (ltb 0 n)
  let counter' = (counter + 1) % 2 ^ 32
  done (counter', if counter' % n == 0 then scheduler else fallback)

unfoldable pub destroy_state : OpState → Outcome (Unit {0})
destroy_state monostate = failed_assert
destroy_state scheduler = done tt
destroy_state fallback = done tt

-- Receiver_OnScheduled: each of its three signals is passed on.
unfoldable pub on_selected {ℓ} : {A : Type ℓ} → OpState → Signal A → Outcome (Signal A)
unfolding destroy_state
on_selected op signal = do destroy_state op; done signal

-- What `turns` operations on one counter select, one started after another.
unfoldable pub select_many : (turns counter n : ℕ) → Outcome (List OpState)
unfolding select_start
select_many zero counter n = done []
select_many (suc turns) counter n = do
  (counter', op) ← select_start counter n
  ops ← select_many turns counter' n
  done (op ∷ ops)
