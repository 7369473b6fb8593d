-- ===== src/Printer/Lines.antt =====
-- What the tool prints: the name of the program and the lines of changes.
use win_io.Base.{
  ℕ, suc, ◌+◌, ◌<◌, ◌^◌, ◌≡◌, ◌⊎◌, inl, inr, refl, ap, arith, true, false, Option, none, some, List,
  [], ◌∷◌, ◌++◌, ◌==◌, length, drop, map, if◌then◌else◌, Bool-cases,
}
use win_io.Base.Outcome.{Outcome, done}
use win_io.Os.{no_error, infinite, dword}
use win_io.Port.{PortEntry, port_entry, IoCompletionPort}
use win_io.Port.Fifo.{IsFifo}
use win_io.Directory.Parser.{Memory, DirectoryChange, range_of_entry}
use win_io.Directory.Parser.Layout.{Layout}
use win_io.Directory.Parser.Iteration.{changes-Layout}
use win_io.Directory.Watch.{
  WatchApi, DirectoryChanges, directory_changes, is_valid_directory_change, results_of, start_watch,
  get_results,
}
use win_io.Printer.{
  Text, Options, is_separator, find_last_of, get_file_name_only, get_action_arg,
  log_directory_change,
}
use win_io.Printer.Watching.{Message, out, log_all, log_changes, watch_turn}

-- No character of the text is '\\' or '/'.
abbrev pub Plain : Text → Type 0
Plain [] = Unit {0}
Plain (c ∷ cs) = (is_separator c ≡ false) × Plain cs

-- A text is what stands in front of the last separator, that and a plain text, if it has one.
abbrev Cut : Text → Option ℕ → Type 0
Cut cs none = Plain cs
Cut cs (some pos) =
    Plain (drop (suc pos) cs)
    × (before : Text) × (c : ℕ) × (is_separator c ≡ true)
    × (cs ≡ before ++ c ∷ drop (suc pos) cs)

find_last_of-Cut : (cs : Text) → Cut cs (find_last_of cs)
find_last_of-Cut [] = record {}
find_last_of-Cut (c ∷ cs) = go (find_last_of cs) (find_last_of-Cut cs)
  where
    go :
        (last : Option ℕ)
        → Cut cs last
        → Cut (c ∷ cs) (elim last [
          | some pos ↦ some (suc pos)
          | none ↦ if is_separator c then some 0 else none
        ])
    go none plain = elim (Bool-cases (is_separator c)) [
      | inl sep ↦ rw sep (plain, [], c, sep, refl)
      | inr other ↦ rw other (other, plain)
    ]
    go (some pos) (plain, before, d, sep, same) = (plain, c ∷ before, d, sep, ap (◌∷◌ c) same)

-- GetFileNameOnly cuts a path behind its last separator, and gives a path without any back: no
-- separator is in the result.
pub get_file_name_only-Plain :
    (exe_path : Text)
    → Plain (get_file_name_only exe_path)
      × ((get_file_name_only exe_path ≡ exe_path)
          ⊎ ((before : Text) × (c : ℕ) × (is_separator c ≡ true)
              × (exe_path ≡ before ++ c ∷ get_file_name_only exe_path)))
unfolding get_file_name_only
get_file_name_only-Plain exe_path = go (find_last_of exe_path) (find_last_of-Cut exe_path)
  where
    go :
        (last : Option ℕ)
        → Cut exe_path last
        → let name : Text = elim last [ none ↦ exe_path | some pos ↦ drop (suc pos) exe_path ] in
          Plain name
          × ((name ≡ exe_path)
              ⊎ ((before : Text) × (c : ℕ) × (is_separator c ≡ true)
                  × (exe_path ≡ before ++ c ∷ name)))
    go none plain = (plain, inl refl)
    go (some pos) (plain, before, c, sep, same) = (plain, inr (before, c, sep, same))

-- The letter of an action of FILE_NOTIFY_INFORMATION: of added, removed, modified, old name, and
-- new name for any other number.
abbrev pub letter : ℕ → ℕ
letter action =
    if action == 1
    then 97
    else if action == 2
    then 114
    else if action == 3
    then 109
    else if action == 4
    then 111
    else 110

abbrev pub Known : List DirectoryChange → Type 0
Known [] = Unit {0}
Known (c ∷ cs) = (0 < c.action) × (c.action < 6) × Known cs

abbrev pub line_of : DirectoryChange → Message
line_of c = out (43 ∷ letter c.action ∷ 32 ∷ c.name ++ 10 ∷ [])

get_action_arg-letter :
    (action : ℕ) → 0 < action → action < 6 → get_action_arg action ≡ done (letter action ∷ [])
unfolding get_action_arg
get_action_arg-letter action some_action small = ground (arith, some_action, small)

log_directory_change-line :
    (options : Options) (c : DirectoryChange)
    → 0 < c.action
    → c.action < 6
    → log_directory_change options c none ≡ done (43 ∷ letter c.action ∷ 32 ∷ c.name ++ 10 ∷ [])
unfolding log_directory_change
log_directory_change-line options c some_action small =
    rw (get_action_arg-letter c.action some_action small) refl

log_all-lines :
    (options : Options) (cs : List DirectoryChange)
    → Known cs
    → log_all options none cs ≡ done (map line_of cs)
unfolding log_all
log_all-lines options [] known = refl
log_all-lines options (c ∷ cs) (some_action, small, known) =
    rw (log_directory_change-line options c some_action small, log_all-lines options cs known) refl

module _ (api : WatchApi) (fifo : IsFifo api.port_api) (o : DirectoryChanges)
    (port : IoCompletionPort) where
  get_results-first :
      (w : api.port_api.World) (e : PortEntry) (es : List PortEntry)
      → fifo.queue w port.io_port ≡ e ∷ es
      → (w' : api.port_api.World) × (get_results api o port w
          ≡ (results_of api o (some e), no_error, w'))
  unfolding get_results
  get_results-first w e es queued =
      let ms : dword infinite ≡ infinite = omega arith in
      let taken = (fifo.dequeued w port.io_port infinite e es queued).0 in
      ((api.port_api.get_queued_completion_status port.io_port infinite w).1, rw (ms, taken) refl)

  results_of-range :
      (n : ℕ)
      → 0 < n
      → results_of api o (some (port_entry n o.dir_key o.ov))
        ≡ directory_changes (record { buffer = o.buffer; size = n })
  unfolding is_valid_directory_change range_of_entry
  results_of-range n some_bytes = ground (arith, some_bytes)

  -- A turn of the loop in which the watch starts, and the oldest entry at the port is then that of the
  -- watch, for a buffer that the system has filled with the records of the changes `c ∷ cs`: without
  -- the option "time", the tool prints one line for each of them, in their order, with the letter of
  -- its action and its name.
  pub watch_turn-lines :
      (options : Options) (format_time : Outcome Text) (w : api.port_api.World)
      (es : List PortEntry) (mem : Memory) (fuel n : ℕ) (c : DirectoryChange)
      (cs : List DirectoryChange)
      → options.print_time ≡ false
      → (start_watch api o w).0 ≡ no_error
      → fifo.queue (start_watch api o w).1 port.io_port ≡ port_entry n o.dir_key o.ov ∷ es
      → Layout mem o.buffer n c cs
      → 0 < n
      → n < 2 ^ 63
      → length cs + 1 < fuel
      → Known (c ∷ cs)
      → (w' : api.port_api.World) × (watch_turn api fuel mem format_time options port o w
          ≡ done (some (map line_of (c ∷ cs)), w'))
  unfolding watch_turn log_changes
  watch_turn-lines options format_time w es mem fuel n c cs no_time starts queued layout some_bytes
        small enough known =
      let (w', got) =
        get_results-first (start_watch api o w).1 (port_entry n o.dir_key o.ov) es queued in
      let valid = results_of-range n some_bytes in
      let visited = changes-Layout mem fuel o.buffer n c cs layout small enough in
      let lines = log_all-lines options (c ∷ cs) known in
      (w', rw (starts, got, valid, no_time, visited, lines, got) refl)
