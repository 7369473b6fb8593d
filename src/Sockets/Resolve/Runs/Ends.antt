-- ===== src/Sockets/Resolve/Runs/Ends.antt =====
-- A resolution can always be brought to its end.
use win_io.Base.{
  ◌+◌, ◌≡◌, ◌⊎◌, inl, inr, refl, ◌∙◌, arith, false, Option, none, some, length, Bool-cases,
}
use win_io.Os.{Ptr, null, no_error}
use win_io.Port.{PortEntry, PortApi, IoCompletionPort}
use win_io.Sockets.Transfer.{Signal}
use win_io.Sockets.Operation.{Started, completed, pending}
use win_io.Sockets.Resolve.{
  Resolve, end_entry, on_addrinfo_finish, on_complete_windows, on_called, arm_stop,
}
use win_io.Sockets.Resolve.Runs.{
  Phase, calling, arming, started, Running, after_call, after_callback, after_entry, called_back,
  Step, call, arm, callback, entry, Reach, later,
}
use win_io.Sockets.Resolve.Runs.Once.{tally, Reach-once}

-- Nothing is outstanding, and the receiver has been called once.
pub record Ended (r : Running) : Type 0 where
  pub at_end : r.phase ≡ started
  pub none_due : r.accepted ≡ false
  pub none_waits : r.posted ≡ none
  pub called : length r.signals ≡ 1

-- What a callback of the system leaves.
after_callback_lem :
    (r : Running) (e : PortEntry) (x : Option (Signal Ptr × Resolve))
    → ((after_callback r e x).phase ≡ r.phase) × ((after_callback r e x).accepted ≡ false)
after_callback_lem r e none = (refl, refl)
after_callback_lem r e (some (s, op)) = (refl, refl)

after_call_lem :
    (r : Running) (x : Started Ptr × Resolve)
    → ((after_call r x).phase ≡ started) ⊎ ((after_call r x).phase ≡ arming)
after_call_lem r (completed s, op) = inl refl
after_call_lem r (pending, op) = inr refl

-- What any number of steps lead to from a state.
pub data Onward (api : PortApi) (iocp : IoCompletionPort) (r : Running) : Running → Type 0 where
  here : Onward api iocp r r
  further : {r' r'' : Running} → Onward api iocp r r' → Step api iocp r' r'' → Onward api iocp r r''

module _ {api : PortApi} {iocp : IoCompletionPort} {op : Resolve} (r0 : Running)
    (reach0 : Reach api iocp op r0) where
  reaches : (r : Running) → Onward api iocp r0 r → Reach api iocp op r
  reaches r here = reach0
  reaches r (further {r' = r'} onward step) = later (reaches r' onward) step

  ended :
      (r : Running)
      → Onward api iocp r0 r
      → r.phase ≡ started
      → r.accepted ≡ false
      → r.posted ≡ none
      → (r' : Running) × Onward api iocp r0 r' × Ended r'
  ended r reach at none_due none_waits =
      let once : tally r ≡ 1 = (Reach-once (reaches r reach)).0 in
      let signals : 0 + length r.signals ≡ 1 = rw (at, none_due, none_waits) at once in
      (
        r,
        reach,
        record {
          at_end = at;
          none_due = none_due;
          none_waits = none_waits;
          called = omega (arith, signals);
        },
      )

  serves :
      (r : Running)
      → Onward api iocp r0 r
      → r.phase ≡ started
      → r.accepted ≡ false
      → (r' : Running) × Onward api iocp r0 r' × Ended r'
  serves r reach at none_due = go r.posted refl
    where
      go :
          (posted : Option PortEntry)
          → r.posted ≡ posted
          → (r' : Running) × Onward api iocp r0 r' × Ended r'
      go none there = ended r reach at none_due there
      go (some e) there =
          ended (after_entry r (on_addrinfo_finish r.op e no_error))
            (further reach (entry e no_error there)) at none_due refl

  calls_back :
      (r : Running) (w : api.World)
      → Onward api iocp r0 r
      → r.phase ≡ started
      → (r' : Running) × Onward api iocp r0 r' × Ended r'
  calls_back r w reach at = elim (Bool-cases r.accepted) [
    | inl due ↦
        let self : Resolve = record r.op { results = null } in
        let (same, none_due) =
          after_callback_lem (record r { op = self }) (end_entry self 0 0)
            (on_complete_windows api iocp 0 0 self w).0 in
        serves (called_back api iocp 0 0 null w r) (further reach (callback 0 0 null w due))
          (same ∙ at) none_due
    | inr none_due ↦ serves r reach at none_due
  ]

  arms :
      (r : Running) (w : api.World)
      → Onward api iocp r0 r
      → (r.phase ≡ started) ⊎ (r.phase ≡ arming)
      → (r' : Running) × Onward api iocp r0 r' × Ended r'
  arms r w reach (inl at) = calls_back r w reach at
  arms r w reach (inr at) =
      calls_back (record r { op = arm_stop null r.op; phase = started }) w
        (further reach (arm null at)) refl

-- From every state that a resolution can reach there are further steps to one in which nothing of it is
-- outstanding and its receiver has been called, once: no order of the steps before, no request to stop
-- and no error leaves it without a signal for good.
pub Reach-Ended :
    {api : PortApi} {iocp : IoCompletionPort} {op : Resolve} (r : Running) (w : api.World)
    → Reach api iocp op r
    → (r' : Running) × Onward api iocp r r' × Ended r'
Reach-Ended {api} {iocp} r w reach = go r.phase refl
  where
    go : (phase : Phase) → r.phase ≡ phase → (r' : Running) × Onward api iocp r r' × Ended r'
    go calling at =
        let x = on_called 0 (record r.op { results = null }) in
        arms r reach (after_call r x) w (further here (call 0 null at)) (after_call_lem r x)
    go arming at = arms r reach r w here (inr at)
    go started at = arms r reach r w here (inl at)
