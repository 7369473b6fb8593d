-- ===== src/Port/Fifo.antt =====
-- A port as a first-in first-out channel of entries.
use mathlib.Core.List.{head?, tail}
use win_io.Base.{
  ℕ, ◌<◌, ◌^◌, Bool, true, false, List, [], ◌∷◌, ◌++◌, ◌≡◌, ◌≢◌, refl, sym, ap, ◌∙◌, arith,
  if◌then◌else◌, take, append-nil, append_assoc, Bool-cases, inl, inr,
}
use win_io.Os.{Ptr, null, ErrorCode, no_error, is_error, dword}
use win_io.Port.{PortEntry, port_entry, PortApi, IoCompletionPort, post, query, query_many}

-- WAIT_TIMEOUT
abbrev pub wait_timeout : ErrorCode
wait_timeout = 258

-- What Windows documents of the queue of a port: posting appends or fails with an error, a wait
-- takes from the front, and a wait of 0 milliseconds on an empty port times out. No entry is that of
-- an operation that failed.
pub record IsFifo (api : PortApi) : Type 1 where
  pub queue : api.World → Ptr → List PortEntry
  pub posted :
      (w : api.World) (port : Ptr) (b k ov : ℕ)
      → (api.post_queued_completion_status port b k ov w).0 ≡ true
      → queue (api.post_queued_completion_status port b k ov w).1 port
        ≡ queue w port ++ port_entry b k ov ∷ []
  pub not_posted :
      (w : api.World) (port : Ptr) (b k ov : ℕ)
      → (api.post_queued_completion_status port b k ov w).0 ≡ false
      → (api.get_last_error (api.post_queued_completion_status port b k ov w).1 ≢ no_error)
        × (queue (api.post_queued_completion_status port b k ov w).1 port ≡ queue w port)
  pub dequeued :
      (w : api.World) (port : Ptr) (ms : ℕ) (e : PortEntry) (q : List PortEntry)
      → queue w port ≡ e ∷ q
      → ((api.get_queued_completion_status port ms w).0 ≡ record {
        status = true;
        bytes_transferred = e.bytes_transferred;
        completion_key = e.completion_key;
        overlapped = e.overlapped;
      })
        × (queue (api.get_queued_completion_status port ms w).1 port ≡ q)
  pub timed_out :
      (w : api.World) (port : Ptr)
      → queue w port ≡ []
      → ((api.get_queued_completion_status port 0 w).0
          ≡ record { status = false; bytes_transferred = 0; completion_key = 0; overlapped = null })
        × (api.get_last_error (api.get_queued_completion_status port 0 w).1 ≡ wait_timeout)
        × (queue (api.get_queued_completion_status port 0 w).1 port ≡ [])
  pub many :
      (w : api.World) (port : Ptr) (n ms : ℕ) (alertable : Bool)
      → 0 < n
      → queue w port ≢ []
      → (api.get_queued_completion_status_ex port n ms alertable w).0
        ≡ (true, take n (queue w port))

abbrev pub has_entry : List PortEntry → Bool
has_entry [] = false
has_entry (_ ∷ _) = true

module _ (api : PortApi) (fifo : IsFifo api) (o : IoCompletionPort) where
  -- Posts a list of entries one by one: whether every post succeeded, and the system afterwards.
  abbrev pub post_all : List PortEntry → api.World → Bool × api.World
  post_all [] w = (true, w)
  post_all (e ∷ es) w =
      let (ec, w') = post api o e w in
      let (rest, w'') = post_all es w' in (if is_error ec then false else rest, w'')

  -- A post that reports no error has put the entry behind all others; one that reports an error has
  -- changed nothing.
  pub post-queue :
      (e : PortEntry) (w : api.World)
      → fifo.queue (post api o e w).1 o.io_port ≡ (
          if is_error (post api o e w).0
          then fifo.queue w o.io_port
          else fifo.queue w o.io_port ++ e ∷ [])
  unfolding post
  post-queue e w =
      let b = e.bytes_transferred in
      let k = e.completion_key in
      ground (
        arith,
        fifo.posted w o.io_port b k e.overlapped,
        fifo.not_posted w o.io_port b k e.overlapped,
      )

  -- `query` never blocks: it takes the oldest entry and reports no error, or, on an empty port, it
  -- returns nothing and reports a time-out.
  pub query-queue :
      (w : api.World)
      → ((query api o w).0 ≡ head? (fifo.queue w o.io_port))
        × ((query api o w).1
            ≡ (if has_entry (fifo.queue w o.io_port) then no_error else wait_timeout))
        × (fifo.queue (query api o w).2 o.io_port ≡ tail (fifo.queue w o.io_port))
  unfolding query
  query-queue w = by_queue (fifo.queue w o.io_port) refl
    where
      by_queue :
          (q : List PortEntry)
          → fifo.queue w o.io_port ≡ q
          → ((query api o w).0 ≡ head? q)
            × ((query api o w).1 ≡ (if has_entry q then no_error else wait_timeout))
            × (fifo.queue (query api o w).2 o.io_port ≡ tail q)
      by_queue [] e = ground (arith, fifo.timed_out w o.io_port e)
      by_queue (x ∷ q) e = ground (arith, fifo.dequeued w o.io_port 0 x q e)

  post_all-queue :
      (es : List PortEntry) (w : api.World)
      → (post_all es w).0 ≡ true
      → fifo.queue (post_all es w).1 o.io_port ≡ fifo.queue w o.io_port ++ es
  post_all-queue [] w h = sym (append-nil (fifo.queue w o.io_port))
  post_all-queue (e ∷ es) w h =
      let (ec, w') = post api o e w in
      elim (Bool-cases (is_error (post api o e w).0)) [
        | inl failed ↦ absurd (cc (rw failed at h))
        | inr fine ↦
            post_all-queue es w' (rw fine at h)
            ∙ ap (λ q. q ++ es) (rw fine at (post-queue e w))
            ∙ append_assoc (fifo.queue w o.io_port) (e ∷ []) es
      ]

  -- Entries that were posted to an empty port, each without an error, come back together, in the
  -- order of the posts and as many as the caller's span holds.
  pub query_many-post_all :
      (es : List PortEntry) (size : ℕ) (w : api.World)
      → fifo.queue w o.io_port ≡ []
      → (post_all es w).0 ≡ true
      → es ≢ []
      → 0 < size
      → size < 2 ^ 32
      → let (entries, ec, _) = query_many api o size false (post_all es w).1 in
        (entries ≡ take size es) × (ec ≡ no_error)
  unfolding query_many
  query_many-post_all es size w fresh fine some_entry room small =
      let arrived : fifo.queue (post_all es w).1 o.io_port ≡ es =
        post_all-queue es w fine ∙ ap (λ q. q ++ es) fresh in
      let fits : dword size ≡ size = omega arith in
      let many =
        fifo.many (post_all es w).1 o.io_port size 0 false room
          (λ e. some_entry (sym arrived ∙ e)) in
      rw (fits, many, arrived) (refl, refl)
