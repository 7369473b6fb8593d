-- ===== src/Sockets/Wait/Serving.antt =====
-- What IOCP_sync_wait serves.
use win_io.Base.{
  ℕ, zero, suc, ◌≤◌, ◌<◌, ◌≡◌, ◌≢◌, refl, sym, ap, ◌∙◌, arith, Bool, true, false, ◌==◌, Option,
  some, List, [], ◌∷◌, length, take, drop, take-append-drop, ◌++◌, append_assoc, ◌+◌, subst,
}
use win_io.Base.Outcome.{done}
use win_io.Os.{Ptr, null, no_error, infinite}
use win_io.Port.{PortEntry, PortApi, IoCompletionPort, get_many}
use win_io.Port.Fifo.{IsFifo}
use win_io.Sockets.Wait.{Callback, invoke, invoke_all, sync_wait}

-- A batch is gone from the queue when it has been taken.
abbrev pub Takes : (api : PortApi) → IsFifo api → Type 0
Takes api fifo =
    (w : api.World) (port n ms : ℕ) (alertable : Bool)
    → 0 < n
    → fifo.queue w port ≢ []
    → fifo.queue (api.get_queued_completion_status_ex port n ms alertable w).1 port
      ≡ drop n (fifo.queue w port)

module _ {S : Type 0} (api : PortApi) (fifo : IsFifo api) (iocp : IoCompletionPort)
    (finish : S → Bool) (callback_at : Ptr → Option (Callback S api.World)) where
  -- The callback of an entry, when the sender is unfinished, returns: it takes the program from `s` to
  -- `state`, and puts the entries `posted` behind all others at the port.
  pub record Served (e : PortEntry) (s : S) : Type 0 where
    pub unfinished : finish s ≡ false
    pub some_ov : e.overlapped ≢ null
    pub callback : Callback S api.World
    pub held : callback_at e.overlapped ≡ some callback
    pub state : S
    pub posted : List PortEntry
    pub returns :
        (w : api.World)
        → (w' : api.World) × (callback s w e no_error ≡ done (state, w'))
          × (fifo.queue w' iocp.io_port ≡ fifo.queue w iocp.io_port ++ posted)

  -- From a port with the entries `es`, `n` entries in all are served, each once and the oldest first,
  -- those that are posted meanwhile included; then there are none, and the program is in the state `t`.
  abbrev pub Runs : ℕ → List PortEntry → S → S → Type 0
  Runs n [] s t = (n ≡ 0) × (s ≡ t)
  Runs zero (e ∷ es) s t = ⊥
  Runs (suc n) (e ∷ es) s t = (x : Served e s) × Runs n (es ++ x.posted) x.state t

  -- What is left of the run behind a batch.
  pub record Behind (n : ℕ) (batch : List PortEntry) (s t : S) (w : api.World) : Type 0 where
    pub state : S
    pub world : api.World
    pub left : ℕ
    pub count : left + length batch ≡ n
    pub served : invoke_all api finish callback_at batch no_error s w ≡ done (state, world)
    pub further : Runs left (fifo.queue world iocp.io_port) state t

  invoke_all-Runs :
      (n : ℕ) (batch rest : List PortEntry) (s t : S) (w : api.World)
      → Runs n (batch ++ rest) s t
      → fifo.queue w iocp.io_port ≡ rest
      → Behind n batch s t w
  unfolding invoke_all invoke
  invoke_all-Runs n [] rest s t w r queued = record {
    state = s;
    world = w;
    left = n;
    count = omega arith;
    served = refl;
    further = subst (λ q. Runs n q s t) (sym queued) r;
  }
  invoke_all-Runs zero (e ∷ batch) rest s t w r queued = absurd r
  invoke_all-Runs (suc n) (e ∷ batch) rest s t w (x, r) queued =
      let (w', returned, added) = x.returns w in
      let later : Behind n batch x.state t w' =
        invoke_all-Runs n batch (rest ++ x.posted) x.state t w'
          (subst (λ q. Runs n q x.state t) (append_assoc batch rest x.posted) r)
          (added ∙ ap (λ q. q ++ x.posted) queued) in
      let is_some : (e.overlapped == 0) ≡ false = ground (arith, x.some_ov) in
      record {
        state = later.state;
        world = later.world;
        left = later.left;
        count = omega (arith, later.count);
        served = rw (is_some, x.held, returned) (later.served);
        further = later.further;
      }

  Runs-unfinished :
      (n : ℕ) (e : PortEntry) (es : List PortEntry) (s t : S)
      → Runs n (e ∷ es) s t
      → finish s ≡ false
  Runs-unfinished zero e es s t r = absurd r
  Runs-unfinished (suc n) e es s t (x, r) = x.unfinished

  module _ (takes : Takes api fifo) where
    -- A wait of the loop.
    wait_lem :
        (e : PortEntry) (es : List PortEntry) (w : api.World)
        → fifo.queue w iocp.io_port ≡ e ∷ es
        → (w' : api.World) × (get_many api iocp 4 false w ≡ (take 4 (e ∷ es), no_error, w'))
          × (fifo.queue w' iocp.io_port ≡ drop 4 (e ∷ es))
    unfolding get_many
    wait_lem e es w queued =
        let some_entry : fifo.queue w iocp.io_port ≢ [] =
          λ none_left. ground (arith, sym queued ∙ none_left) in
        let many = fifo.many w iocp.io_port 4 infinite false (omega arith) some_entry in
        (
          (api.get_queued_completion_status_ex iocp.io_port 4 infinite false w).1,
          rw (many, queued) refl,
          takes w iocp.io_port 4 infinite false (omega arith) some_entry ∙ ap (drop 4) queued,
        )

    -- If the callbacks of the entries that wait at the port, and of those that callbacks post to it
    -- meanwhile, finish the sender, the last of them and none before, the loop ends after at most as
    -- many turns as entries are served: each was served once, in their order, without an error, and none
    -- is left. No assertion fails.
    pub sync_wait-Runs :
        (fuel n : ℕ) (es : List PortEntry) (s t : S) (w : api.World)
        → Runs n es s t
        → finish t ≡ true
        → fifo.queue w iocp.io_port ≡ es
        → n ≤ fuel
        → (w' : api.World) × (sync_wait api finish callback_at iocp fuel s w ≡ some (done (t, w')))
          × (fifo.queue w' iocp.io_port ≡ [])
    unfolding sync_wait
    sync_wait-Runs zero n [] s t w (_, r) ends queued enough = (w, rw (r, ends) refl, queued)
    sync_wait-Runs (suc fuel) n [] s t w (_, r) ends queued enough = (w, rw (r, ends) refl, queued)
    sync_wait-Runs zero zero (e ∷ es) s t w r ends queued enough = absurd r
    sync_wait-Runs zero (suc n) (e ∷ es) s t w r ends queued enough = absurd (omega (arith, enough))
    sync_wait-Runs (suc fuel) n (e ∷ es) s t w r ends queued enough =
        let (w1, taken, left) = wait_lem e es w queued in
        let behind : Behind n (take 4 (e ∷ es)) s t w1 =
          invoke_all-Runs n (take 4 (e ∷ es)) (drop 4 (e ∷ es)) s t w1
            (subst (λ q. Runs n q s t) (sym (take-append-drop 4 (e ∷ es))) r) left in
        let (w', ends', empty) =
          sync_wait-Runs fuel behind.left (fifo.queue behind.world iocp.io_port) behind.state t
            behind.world behind.further ends refl (omega (arith, enough, behind.count)) in
        (w', rw (Runs-unfinished n e es s t r, taken, behind.served) ends', empty)
