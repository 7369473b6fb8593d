-- ===== src/Printer/Watching.antt =====
-- fs_changes_print/main.cpp: WatchForever and wmain, up to the loop and for one turn of it. The output
-- is a list of messages.
use win_io.Base.{true, false, Bool, ◌++◌, ℕ, not, Option, none, some, List, [], ◌∷◌, if◌then◌else◌}
use win_io.Base.Outcome.{Outcome, done, failed_assert, ◌>>=◌}
use win_io.Os.{Ptr, ErrorCode, no_error, is_error}
use win_io.Port.{IoCompletionPort, make, close}
use win_io.Directory.Parser.{Memory, DirectoryChange, Range, changes}
use win_io.Directory.Watch.{
  WatchApi, DirectoryChanges, DirectoryChangesResults, no_results, directory_changes, port_changes,
  WatchSettings, make_on_name, start_watch, get_results,
}
use win_io.Printer.{
  Text, Options, default_options, log_directory_change, log_flags, get_file_name_only,
  parse_command_line,
}

-- The messages of the calls of LogError.
pub data Failure : Type 0 where
  failed_port : Failure
  failed_watch : Failure
  failed_start : Failure
  failed_get : Failure

-- A text on stdout, an error on stderr, or another text there.
pub data Message : Type 0 where
  out : Text → Message
  failure : Failure → ErrorCode → Message
  note : Text → Message

-- "recursive" and "non-recursive"
abbrev mode : Bool → Text
mode true = 114 ∷ 101 ∷ 99 ∷ 117 ∷ 114 ∷ 115 ∷ 105 ∷ 118 ∷ 101 ∷ []
mode false = 110 ∷ 111 ∷ 110 ∷ 45 ∷ 114 ∷ 101 ∷ 99 ∷ 117 ∷ 114 ∷ 115 ∷ 105 ∷ 118 ∷ 101 ∷ []

-- LogOptions
unfoldable pub log_options : (exe_path : Text) → Options → Text
log_options exe_path options =
    (40 ∷ mode options.watch_sub_tree)
    ++ 41 ∷ 32 ∷ get_file_name_only exe_path
    ++ 32 ∷ options.directory
    ++ 32 ∷ log_flags options
    ++ 10 ∷ []

-- The loop of LogChanges over the changes that a range has.
unfoldable pub log_all : Options → Option Text → List DirectoryChange → Outcome (List Message)
log_all options time_str [] = done []
log_all options time_str (change ∷ others) = do
  line ← log_directory_change options change time_str
  lines ← log_all options time_str others
  done (out line ∷ lines)

-- LogChanges, with fuel for the iteration: none if that runs out. `format_time` is the time as
-- strftime writes it, which may abort the program.
unfoldable pub log_changes :
    (fuel : ℕ)
    → Memory
    → (format_time : Outcome Text) → Options
    → Range
    → Outcome (Option (List Message))
log_changes fuel mem format_time options range = do
  time_str ← if options.print_time then (do time ← format_time; done (some time)) else done none
  visited ← changes fuel mem range
  elim visited [
    | none ↦ done none
    | some cs ↦ do lines ← log_all options time_str cs; done (some lines)
  ]

-- LogError
unfoldable pub log_error : Options → Failure → ErrorCode → List Message
log_error options message ec = if not options.verbose then [] else failure message ec ∷ []

-- LogUnexpectedPortChanges, which ends in a call of abort() whatever the results are.
unfoldable pub log_unexpected_port_changes :
    Options → DirectoryChangesResults → Outcome (List Message)
log_unexpected_port_changes options _ = if not options.verbose then done [] else failed_assert

-- What comes of everything in front of the loop.
pub data Begun : Type 0 where
  exits : List Message → Begun
  watches : IoCompletionPort → DirectoryChanges → Begun

module _ (api : WatchApi) where
  open api use {port_api}

  -- WatchForever in front of its loop, with the addresses of its buffer, of 32 * 1024 DWORDs, and of
  -- the OVERLAPPED of the watch. On a failure of the watch the port is destroyed.
  unfoldable pub watch_begin :
      (buffer ov : Ptr) → Options → port_api.World → Outcome (Begun × port_api.World)
  watch_begin buffer ov options w =
      let (made, ec, w1) = make port_api 1 no_error w in
      elim made [
        | none ↦ done (exits (log_error options failed_port ec), w1)
        | some port ↦ do
          let settings : WatchSettings = record {
            buffer = buffer;
            length = 131072;
            watch_sub_tree = options.watch_sub_tree;
            notify_filter = options.notify_filter;
            io_port = port;
            dir_key = 1;
          }
          watch ← make_on_name api ec settings ov w1
          elim watch.0 [
            | some dir_changes ↦ done (watches port dir_changes, watch.2)
            | none ↦ do
              closed ← close port_api port watch.2
              done (exits (log_error options failed_watch watch.1), closed.1)
          ]
      ]

  -- A turn of the loop. `mem` is the memory when the wait is over.
  unfoldable pub watch_turn :
      (fuel : ℕ)
      → Memory
      → (format_time : Outcome Text) → Options
      → IoCompletionPort
      → DirectoryChanges
      → port_api.World
      → Outcome (Option (List Message) × port_api.World)
  watch_turn fuel mem format_time options port dir_changes w =
      let (ec, w1) = start_watch api dir_changes w in
      if is_error ec
      then done (some (log_error options failed_start ec), w1)
      else let (results, ec', w2) = get_results api dir_changes port w1 in
        if is_error ec' then done (some (log_error options failed_get ec'), w2) else elim results [
          | no_results ↦ do
            lines ← log_unexpected_port_changes options no_results
            done (some lines, w2)
          | port_changes entry ↦ do
            lines ← log_unexpected_port_changes options (port_changes entry)
            done (some lines, w2)
          | directory_changes range ↦ do
            lines ← log_changes fuel mem format_time options range
            done (lines, w2)
        ]

  -- wmain, up to the loop: none if it prints the help, and what it prints of the options.
  unfoldable pub wmain :
      (buffer ov : Ptr)
      → (exe_path : Text) (arguments : List Text) → port_api.World
      → Outcome (Option (List Message × Begun) × port_api.World)
  wmain buffer ov exe_path arguments w = do
    parsed ← parse_command_line (exe_path ∷ arguments) default_options
    elim parsed [
      | none ↦ done (none, w)
      | some options ↦ do
        let printed = if options.verbose then note (log_options exe_path options) ∷ [] else []
        begun ← watch_begin buffer ov options w
        done (some (printed, begun.0), begun.1)
    ]
