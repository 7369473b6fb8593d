-- ===== src/Programs/Watcher/Dispatch.antt =====
-- Which directory an entry goes to, what is printed of it, and what its subscriber does.
use win_io.Base.{
  ℕ, ◌<◌, ◌+◌, ◌^◌, length, map, ◌≡◌, ◌≢◌, inl, inr, refl, ap, ◌∙◌, arith, true, false, some, List,
  [], ◌∷◌, ◌++◌, ◌==◌, if◌then◌else◌, Bool-cases,
}
use win_io.Base.Outcome.{done, failed_assert}
use win_io.Os.{no_error, is_error, infinite}
use win_io.Port.{PortEntry, IoCompletionPort, get}
use win_io.Port.Fifo.{IsFifo}
use win_io.Directory.Watch.{WatchApi, DirectoryChanges, is_valid_directory_change, start_watch}
use win_io.Directory.Parser.{Memory, DirectoryChange, range_of_entry, changes}
use win_io.Directory.Parser.Layout.{Layout}
use win_io.Directory.Parser.Iteration.{changes-Layout}
use win_io.Printer.Lines.{letter, Known}
use win_io.Programs.Watcher.{
  get_action_title, page_of, dir_of_entry, directory_event, pages, rule, on_event, on_next,
  serve_one,
}

-- None of the directories has the key of the given one.
abbrev pub Apart : DirectoryChanges → List DirectoryChanges → Type 0
Apart d [] = Unit {0}
Apart d (e ∷ es) = (d.dir_key ≢ e.dir_key) × Apart d es

dir_of_entry-own :
    (before after : List DirectoryChanges) (d : DirectoryChanges) (pd : PortEntry)
    → Apart d before
    → is_valid_directory_change d pd ≡ true
    → dir_of_entry (before ++ d ∷ after) pd ≡ some d
unfolding dir_of_entry is_valid_directory_change
dir_of_entry-own [] after d pd apart valid = rw valid refl
dir_of_entry-own (e ∷ before) after d pd (other, apart) valid =
    let rest = dir_of_entry-own before after d pd apart valid in
    let not_of : (pd.completion_key == e.dir_key) ≡ false = ground (arith, other, valid) in
    rw (not_of, rest) refl

-- What is printed of a change of a known action.
abbrev pub page_line : DirectoryChange → List ℕ
page_line c = 43 ∷ letter c.action ∷ 58 ∷ 32 ∷ c.name ++ 10 ∷ []

get_action_title-letter :
    (action : ℕ) → 0 < action → action < 6 → get_action_title action ≡ done (letter action ∷ [])
unfolding get_action_title
get_action_title-letter action some_action small = ground (arith, some_action, small)

pages-lines : (cs : List DirectoryChange) → Known cs → pages cs ≡ done (map page_line cs)
unfolding pages page_of
pages-lines [] known = refl
pages-lines (c ∷ cs) (some_action, small, known) =
    rw (get_action_title-letter c.action some_action small, pages-lines cs known) refl

module _ (api : WatchApi) (fifo : IsFifo api.port_api) (dirs : List DirectoryChanges) where
  get-first :
      (io_service : IoCompletionPort) (w : api.port_api.World) (pd : PortEntry)
      (es : List PortEntry)
      → fifo.queue w io_service.io_port ≡ pd ∷ es
      → (w' : api.port_api.World) × (get api.port_api io_service w ≡ (some pd, no_error, w'))
        × (fifo.queue w' io_service.io_port ≡ es)
  unfolding get
  get-first io_service w pd es queued =
      let (taken, left) = fifo.dequeued w io_service.io_port infinite pd es queued in
      (
        (api.port_api.get_queued_completion_status io_service.io_port infinite w).1,
        rw taken refl,
        left,
      )

  on_next-prints :
      (pd : PortEntry) (d : DirectoryChanges) (w : api.port_api.World) (mem : Memory) (fuel : ℕ)
      (cs : List DirectoryChange)
      → dir_of_entry dirs pd ≡ some d
      → changes fuel mem (range_of_entry d.buffer pd) ≡ done (some cs)
      → pages cs ≡ done (map page_line cs)
      → on_next api dirs fuel mem pd w ≡ (
          if is_error (start_watch api d w).0
          then done (some (map page_line cs ++ rule ∷ [], (start_watch api d w).1))
          else failed_assert)
  unfolding on_next on_event directory_event
  on_next-prints pd d w mem fuel cs own visited printed =
      elim (Bool-cases (is_error (start_watch api d w).0)) [
        | inl failed ↦ rw (on_next, own, visited, printed, on_event, failed) refl
        | inr fine ↦ rw (on_next, own, visited, printed, on_event, fine) refl
      ]

  -- An entry with changes is handed to the one directory that it is of, if the keys are different. For
  -- a buffer that the system has filled with the records of the changes `c ∷ cs`, of known actions, and
  -- enough fuel for their number, a line is printed for each, in order, and then a rule, if the watch of
  -- this directory cannot be started anew; if it can, the program stops: the assertion behind the start
  -- is the wrong way round.
  pub serve_one-stops :
      (before after : List DirectoryChanges) (d : DirectoryChanges) (io_service : IoCompletionPort)
      (w : api.port_api.World) (pd : PortEntry) (es : List PortEntry) (mem : Memory) (fuel : ℕ)
      (c : DirectoryChange) (cs : List DirectoryChange)
      → dirs ≡ before ++ d ∷ after
      → Apart d before
      → is_valid_directory_change d pd ≡ true
      → fifo.queue w io_service.io_port ≡ pd ∷ es
      → Layout mem d.buffer pd.bytes_transferred c cs
      → pd.bytes_transferred < 2 ^ 63
      → length cs + 1 < fuel
      → Known (c ∷ cs)
      → (w' : api.port_api.World) × (fifo.queue w' io_service.io_port ≡ es)
        × (serve_one api dirs fuel mem io_service w ≡ (
            if is_error (start_watch api d w').0
            then done (some (map page_line (c ∷ cs) ++ rule ∷ [], (start_watch api d w').1))
            else failed_assert))
  unfolding serve_one range_of_entry
  serve_one-stops before after d io_service w pd es mem fuel c cs same apart valid queued layout
        small enough known =
      let (w', got, left) = get-first io_service w pd es queued in
      let own : dir_of_entry dirs pd ≡ some d =
        ap (λ ds. dir_of_entry ds pd) same ∙ dir_of_entry-own before after d pd apart valid in
      let visited =
        changes-Layout mem fuel d.buffer pd.bytes_transferred c cs layout small enough in
      let printed = pages-lines (c ∷ cs) known in
      (
        w',
        left,
        rw (serve_one, got, got) (on_next-prints pd d w' mem fuel (c ∷ cs) own visited printed),
      )
