-- ===== src/Directory/Watch/Results.antt =====
-- From the entry that the port delivers to the changes in the buffer.
use mathlib.Core.List.{head?, tail}
use win_io.Base.{
  ℕ, ◌+◌, ◌<◌, ◌^◌, false, ◌&&◌, some, List, ◌∷◌, ◌==◌, ◌≡◌, refl, ap, ◌∙◌, arith, length,
}
use win_io.Base.Outcome.{done}
use win_io.Os.{no_error}
use win_io.Port.{PortEntry, port_entry, IoCompletionPort, query}
use win_io.Port.Fifo.{IsFifo, query-queue}
use win_io.Directory.Parser.{Memory, DirectoryChange, Range, range_of_entry, changes}
use win_io.Directory.Parser.Layout.{Layout}
use win_io.Directory.Parser.Iteration.{changes-Layout}
use win_io.Directory.Watch.{
  WatchApi, DirectoryChanges, directory_changes, port_changes, has_buffer_overflow,
  is_valid_directory_change, results_of, query_results,
}

module _ (api : WatchApi) (fifo : IsFifo api.port_api) (o : DirectoryChanges)
    (port : IoCompletionPort) (w : api.port_api.World) (es : List PortEntry) where
  query_results-first :
      (e : PortEntry)
      → fifo.queue w port.io_port ≡ e ∷ es
      → ((query_results api o port w).0 ≡ results_of api o (some e))
        × ((query_results api o port w).1 ≡ no_error)
        × (fifo.queue (query_results api o port w).2 port.io_port ≡ es)
  unfolding query_results query
  query_results-first e queued =
      let (oldest, fine, left) = query-queue api.port_api fifo port w in
      (
        ap (results_of api o) (oldest ∙ ap head? queued),
        fine ∙ rw queued refl,
        left ∙ ap tail queued,
      )

  -- When the oldest entry of the port is that of this watch, for a buffer which the system has
  -- filled with the records of the changes `c ∷ cs`, `query` takes it without an error, and going
  -- over the range that it returns visits exactly these changes in their order.
  pub query_results-changes :
      (mem : Memory) (fuel n : ℕ) (c : DirectoryChange) (cs : List DirectoryChange)
      → fifo.queue w port.io_port ≡ port_entry n o.dir_key o.ov ∷ es
      → Layout mem o.buffer n c cs
      → 0 < n
      → n < 2 ^ 63
      → length cs + 1 < fuel
      → (range : Range) × ((query_results api o port w).0 ≡ directory_changes range)
        × ((query_results api o port w).1 ≡ no_error)
        × (fifo.queue (query_results api o port w).2 port.io_port ≡ es)
        × (changes fuel mem range ≡ done (some (c ∷ cs)))
  unfolding is_valid_directory_change range_of_entry
  query_results-changes mem fuel n c cs queued layout some_bytes small enough =
      let (first, fine, left) = query_results-first (port_entry n o.dir_key o.ov) queued in
      (
        record { buffer = o.buffer; size = n },
        first ∙ ground arith,
        fine,
        left,
        changes-Layout mem fuel o.buffer n c cs layout small enough,
      )

  -- Any other entry is handed on as it is: one with another key or another OVERLAPPED is not taken
  -- for an overflow, and one of this watch without any bytes is.
  pub query_results-other :
      (e : PortEntry)
      → fifo.queue w port.io_port ≡ e ∷ es
      → is_valid_directory_change o e ≡ false
      → ((query_results api o port w).0 ≡ port_changes e)
        × (has_buffer_overflow o e ≡ ((e.completion_key == o.dir_key) && (e.overlapped == o.ov)))
  unfolding is_valid_directory_change has_buffer_overflow
  query_results-other e queued other =
      let (first, _, _) = query_results-first e queued in
      (first ∙ ground (arith, other), ground (arith, other))
