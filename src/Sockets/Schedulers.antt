-- ===== src/Sockets/Schedulers.antt =====
-- win_socks/include/unifex_IOCP_sockets.hpp: the schedulers, and what their `schedule` functions give.
use win_io.Base.{ℕ, ◌==◌, Bool, not, ◌&&◌}
use win_io.Os.{Ptr, invalid_handle}
use win_io.Sockets.Operation.{never_possible, Operation}
use win_io.Sockets.Handles.{AsyncSocket}
use win_io.Sockets.Select.{OpState, monostate}

-- Sender_IOCP_Schedule
pub record SenderIocpSchedule : Type 0 where
  pub iocp : Ptr

-- Its `connect`: the operation state, which has no socket and asks for no token, and its port.
unfoldable pub schedule_operation : SenderIocpSchedule → (ov : Ptr) → Operation × Ptr
schedule_operation self ov =
    (record { socket = invalid_handle; ov = ov; stop = never_possible }, self.iocp)

-- IOCP_schedule, for a port with this address.
unfoldable pub iocp_schedule : Ptr → SenderIocpSchedule
iocp_schedule iocp = record { iocp = iocp }

-- IOCP_Scheduler
pub record IocpScheduler : Type 0 where
  pub iocp : Ptr

unfoldable pub schedule_iocp : IocpScheduler → SenderIocpSchedule
unfolding iocp_schedule
schedule_iocp self = iocp_schedule self.iocp

-- The `operator==` and `operator!=` of IOCP_Scheduler
unfoldable pub iocp_scheduler_equal : IocpScheduler → IocpScheduler → Bool
iocp_scheduler_equal self rhs = self.iocp == rhs.iocp

unfoldable pub iocp_scheduler_differs : IocpScheduler → IocpScheduler → Bool
iocp_scheduler_differs self rhs = not (self.iocp == rhs.iocp)

-- SelectOnceInN_Scheduler; `counter` is an address.
pub record SelectOnceInN (S F : Type 0) : Type 0 where
  pub scheduler : S
  pub counter : Ptr
  pub n : ℕ
  pub fallback : F

-- Sender_SelectOnceInN
pub record SenderSelectOnceInN (S F : Type 0) : Type 0 where
  pub counter : Ptr
  pub n : ℕ
  pub scheduler : S
  pub fallback : F

unfoldable pub schedule_once_in_n : {S F : Type 0} → SelectOnceInN S F → SenderSelectOnceInN S F
schedule_once_in_n self = record {
  counter = self.counter;
  n = self.n;
  scheduler = self.scheduler;
  fallback = self.fallback;
}

-- Its `operator==` and `operator!=`, over those of the two schedulers.
unfoldable pub once_in_n_equal :
    {S F : Type 0} → (S → S → Bool) → (F → F → Bool) → SelectOnceInN S F → SelectOnceInN S F → Bool
once_in_n_equal equal_s equal_f self rhs =
    (self.counter == rhs.counter)
    && ((self.n == rhs.n)
        && (equal_s self.scheduler rhs.scheduler && equal_f self.fallback rhs.fallback))

unfoldable pub once_in_n_differs :
    {S F : Type 0} → (S → S → Bool) → (F → F → Bool) → SelectOnceInN S F → SelectOnceInN S F → Bool
unfolding once_in_n_equal
once_in_n_differs equal_s equal_f self rhs = not (once_in_n_equal equal_s equal_f self rhs)

-- The operation state of Sender_SelectOnceInN, before its start: the scheduler is not chosen yet.
pub record OperationSelectOnceInN (S F : Type 0) : Type 0 where
  pub counter : Ptr
  pub n : ℕ
  pub scheduler : S
  pub fallback : F
  pub op : OpState

unfoldable pub select_operation :
    {S F : Type 0} → SenderSelectOnceInN S F → OperationSelectOnceInN S F
select_operation self = record {
  counter = self.counter;
  n = self.n;
  scheduler = self.scheduler;
  fallback = self.fallback;
  op = monostate;
}

-- State_AsyncReadWrite::scheduler, for a state whose `_calls_count` is at this address. The fallback
-- is inline_scheduler of libunifex.
unfoldable pub transfer_scheduler :
    {Inline : Type 0}
    → Inline
    → AsyncSocket
    → (calls_count : Ptr) → SelectOnceInN IocpScheduler Inline
transfer_scheduler inline_scheduler socket calls_count = record {
  scheduler = record { iocp = socket.iocp };
  counter = calls_count;
  n = 128;
  fallback = inline_scheduler;
}
