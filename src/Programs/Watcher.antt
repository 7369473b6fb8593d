-- ===== src/Programs/Watcher.antt =====
-- rxcpp_fs_changes/main.cpp: the functions that its pipeline of RxCpp applies to each entry of the
-- port, the pipeline, and the loops around it. As documented, a subject hands a value to its subscribers
-- in the order in which they subscribed, and the operators that are used here work on the thread of the
-- caller and are done before on_next returns. Memory is as the system has filled it.
pub mod Dispatch
use win_io.Base.{
  ℕ, Bool, true, false, not, Option, none, some, List, [], ◌∷◌, ◌++◌, ◌==◌, replicate,
  if◌then◌else◌,
}
use win_io.Base.Outcome.{Outcome, done, failed_assert, ◌>>=◌, ◌>>◌, assert}
use win_io.Os.{ErrorCode, is_error}
use win_io.Port.{PortEntry, IoCompletionPort, get}
use win_io.Directory.Parser.{Memory, DirectoryChange, Range, range_of_entry, changes}
use win_io.Directory.Watch.{WatchApi, DirectoryChanges, is_valid_directory_change, start_watch}

-- ActionMeta, and k_actions: added "a", removed "r", modified "m", old name "o" and new name "n".
pub record ActionMeta : Type 0 where
  pub action : ℕ
  pub title : List ℕ

abbrev pub action_metas : List ActionMeta
action_metas =
    record { action = 1; title = 97 ∷ [] }
    ∷ record { action = 2; title = 114 ∷ [] }
    ∷ record { action = 3; title = 109 ∷ [] }
    ∷ record { action = 4; title = 111 ∷ [] }
    ∷ record { action = 5; title = 110 ∷ [] }
    ∷ []

-- The loop of GetActionTitle over a part of the table.
abbrev pub find_title : List ActionMeta → ℕ → Outcome (List ℕ)
find_title [] action_id = failed_assert
find_title (meta ∷ others) action_id =
    let rest = find_title others action_id in
    if meta.action == action_id then done meta.title else rest

-- GetActionTitle
unfoldable pub get_action_title : ℕ → Outcome (List ℕ)
get_action_title action_id = find_title action_metas action_id

-- The key that `group_by` takes: the directory whose change an entry is, none if it is of none. The
-- pipeline drops an entry of none.
unfoldable pub dir_of_entry : List DirectoryChanges → PortEntry → Option DirectoryChanges
dir_of_entry [] pd = none
dir_of_entry (dir ∷ dirs) pd =
    let rest = dir_of_entry dirs pd in if is_valid_directory_change dir pd then some dir else rest

-- The DirectoryEvent of an entry: its directory and its changes.
unfoldable pub directory_event : DirectoryChanges → PortEntry → DirectoryChanges × Range
directory_event dir pd = (dir, range_of_entry dir.buffer pd)

-- The UIModel of a change: "+", the title, ": ", the name and the end of the line.
unfoldable pub page_of : DirectoryChange → Outcome (List ℕ)
page_of change = do
  title ← get_action_title change.action
  done ((43 ∷ title) ++ 58 ∷ 32 ∷ change.name ++ 10 ∷ [])

-- What the subscriber of `collect_ui` prints of the changes of an event.
unfoldable pub pages : List DirectoryChange → Outcome (List (List ℕ))
unfolding page_of
pages [] = done []
pages (change ∷ others) = do page ← page_of change; rest ← pages others; done (page ∷ rest)

-- A line of 20 times "-".
unfoldable pub rule : List ℕ
rule = replicate 20 45 ++ 10 ∷ []

module _ (api : WatchApi) where
  open api use {port_api}

  -- The subscriber of `dir_events`: what it prints, and the state.
  unfoldable pub on_event : DirectoryChanges → port_api.World → Outcome (List ℕ × port_api.World)
  unfolding rule
  on_event dir_watcher w = do
    let (ec, w') = start_watch api dir_watcher w
    assert (is_error ec)
    done (rule, w')

  -- The loop that starts the watches.
  unfoldable pub start_all : List DirectoryChanges → port_api.World → Outcome port_api.World
  start_all [] w = done w
  start_all (dir ∷ dirs) w = do
    let (ec, w') = start_watch api dir w
    assert (not (is_error ec))
    start_all dirs w'

  module _ (dirs : List DirectoryChanges) (fuel : ℕ) (mem : Memory) where
    -- The pipeline: `group_by`, `filter` and `transform` make the event of an entry; `collect_ui` was
    -- subscribed first, then `dir_events`. The result is what is printed, and none if the fuel of the
    -- iteration runs out.
    unfoldable pub on_next :
        PortEntry → port_api.World → Outcome (Option (List (List ℕ) × port_api.World))
    unfolding dir_of_entry directory_event pages on_event
    on_next pd w = elim (dir_of_entry dirs pd) [
      | none ↦ done (some ([], w))
      | some dir ↦ do
        let event = directory_event dir pd
        visited ← changes fuel mem event.1
        elim visited [
          | none ↦ done none
          | some cs ↦ do
            printed ← pages cs
            after ← on_event event.0 w
            done (some (printed ++ after.0 ∷ [], after.1))
        ]
    ]

    -- A turn of the last loop, but for the message of an error.
    unfoldable pub serve_one :
        IoCompletionPort → port_api.World → Outcome (Option (List (List ℕ) × port_api.World))
    unfolding on_next
    serve_one io_service w = do
      let (entry, ec, w') = get port_api io_service w
      elim entry [ some pd ↦ on_next pd w' | none ↦ do assert (is_error ec); done (some ([], w')) ]
