-- ===== src/Port/Association.antt =====
-- Adding a handle to a port.
use win_io.Base.{ℕ, ◌≡◌, ◌≢◌, ◌⊎◌, inl, inr, refl, arith, Bool-cases}
use win_io.Base.Outcome.{done}
use win_io.Os.{Ptr, null, is_null, ErrorCode, no_error}
use win_io.Port.{PortApi, IoCompletionPort, associate_with_impl}

-- CreateIoCompletionPort adds a handle to the port that is given, or fails. It makes a new port only
-- when none is given.
abbrev pub AddsToGiven : PortApi → Type 0
AddsToGiven api =
    (device existing : Ptr) (key threads : ℕ) (w : api.World)
    → existing ≢ null
    → ((api.create_io_completion_port device existing key threads w).0 ≡ null)
      ⊎ ((api.create_io_completion_port device existing key threads w).0 ≡ existing)

-- For an object that has a port, the assertion on it holds, and the state is that which the call leaves.
pub associate_with_impl-Outcome :
    (api : PortApi) (same_port : AddsToGiven api) (iocp : IoCompletionPort) (h : Ptr) (key : ℕ)
    (w : api.World)
    → iocp.io_port ≢ null
    → (ec : ErrorCode) × (associate_with_impl api iocp h key w
        ≡ done (ec, (api.create_io_completion_port h iocp.io_port key 0 w).1))
unfolding associate_with_impl
associate_with_impl-Outcome api same_port iocp h key w some_port =
    let added = api.create_io_completion_port h iocp.io_port key 0 w in
    elim (Bool-cases (is_null added.0)) [
      | inl failed ↦ (api.get_last_error added.1, rw failed refl)
      | inr valid ↦ (no_error, ground (arith, valid, same_port h iocp.io_port key 0 w some_port))
    ]
