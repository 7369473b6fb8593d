-- ===== src/Printer.antt =====
-- fs_changes_print/main.cpp: the tool that prints the changes of a directory. A text is the list of
-- its characters; what is converted for the console is the text before the conversion.
pub mod Watching
pub mod Flags
pub mod Filters
pub mod Lines
mod Examples
use Prim.Native.Nat.{bit_and, bit_or}
use win_io.Base.{
  ℕ, suc, Bool, true, false, not, ◌&&◌, ◌||◌, Option, none, some, List, [], ◌∷◌, ◌++◌, ◌==◌, ltb,
  length, drop, if◌then◌else◌,
}
use win_io.Base.Outcome.{Outcome, done, failed_assert, ◌>>=◌}
use win_io.Directory.Parser.{DirectoryChange}

abbrev pub Text : Type 0
Text = List ℕ

abbrev pub text_eq : Text → Text → Bool
text_eq [] [] = true
text_eq [] (c ∷ cs) = false
text_eq (c ∷ cs) [] = false
text_eq (c ∷ cs) (d ∷ ds) = (c == d) && text_eq cs ds

pub record Options : Type 0 where
  pub watch_sub_tree : Bool
  pub notify_filter : ℕ
  pub directory : Text
  pub verbose : Bool
  pub print_time : Bool

-- The initializers of the fields; the directory is ".".
abbrev pub default_options : Options
default_options = record {
  watch_sub_tree = true;
  notify_filter = 0;
  directory = 46 ∷ [];
  verbose = false;
  print_time = false;
}

-- Without the description, which is only printed.
pub record FlagMeta : Type 0 where
  pub flag : ℕ
  pub arg : Text

-- FILE_NOTIFY_CHANGE_FILE_NAME "f", DIR_NAME "d", ATTRIBUTES "a", SIZE "s", LAST_WRITE "w",
-- LAST_ACCESS "t", CREATION "c" and SECURITY "s"
abbrev pub notify_filters : List FlagMeta
notify_filters =
    record { flag = 0x1; arg = 102 ∷ [] }
    ∷ record { flag = 0x2; arg = 100 ∷ [] }
    ∷ record { flag = 0x4; arg = 97 ∷ [] }
    ∷ record { flag = 0x8; arg = 115 ∷ [] }
    ∷ record { flag = 0x10; arg = 119 ∷ [] }
    ∷ record { flag = 0x20; arg = 116 ∷ [] }
    ∷ record { flag = 0x40; arg = 99 ∷ [] }
    ∷ record { flag = 0x100; arg = 115 ∷ [] }
    ∷ []

-- FILE_ACTION_ADDED "a", REMOVED "r", MODIFIED "m", RENAMED_OLD_NAME "o" and RENAMED_NEW_NAME "n"
abbrev pub actions : List FlagMeta
actions =
    record { flag = 1; arg = 97 ∷ [] }
    ∷ record { flag = 2; arg = 114 ∷ [] }
    ∷ record { flag = 3; arg = 109 ∷ [] }
    ∷ record { flag = 4; arg = 111 ∷ [] }
    ∷ record { flag = 5; arg = 110 ∷ [] }
    ∷ []

-- k_flags_start, '+'
abbrev pub flags_start : ℕ
flags_start = 43

-- k_opt_NO_recursive, "."
abbrev pub opt_no_recursive : Text
opt_no_recursive = 46 ∷ []

-- k_opt_verbose, "v"
abbrev pub opt_verbose : Text
opt_verbose = 118 ∷ []

-- "time"
abbrev pub time_argument : Text
time_argument = 116 ∷ 105 ∷ 109 ∷ 101 ∷ []

-- The loop of GetActionArg over a part of the table.
abbrev pub find_action : List FlagMeta → ℕ → Outcome Text
find_action [] action_id = failed_assert
find_action (action ∷ others) action_id =
    let rest = find_action others action_id in
    if action.flag == action_id then done action.arg else rest

-- GetActionArg
unfoldable pub get_action_arg : ℕ → Outcome Text
get_action_arg action_id = find_action actions action_id

-- The loop of GetFilterFromString over a part of the table.
abbrev pub find_filter : List FlagMeta → Text → Outcome ℕ
find_filter [] str = failed_assert
find_filter (filter ∷ others) str =
    let rest = find_filter others str in if text_eq str filter.arg then done filter.flag else rest

-- GetFilterFromString
unfoldable pub get_filter_from_string : Text → Outcome ℕ
get_filter_from_string str = find_filter notify_filters str

-- '\\' and '/'
abbrev pub is_separator : ℕ → Bool
is_separator c = (c == 92) || (c == 47)

-- `find_last_of(L"\\/")`
abbrev pub find_last_of : Text → Option ℕ
find_last_of [] = none
find_last_of (c ∷ cs) = elim (find_last_of cs) [
  | some pos ↦ some (suc pos)
  | none ↦ if is_separator c then some 0 else none
]

-- GetFileNameOnly
unfoldable pub get_file_name_only : Text → Text
get_file_name_only exe_path = elim (find_last_of exe_path) [
  | none ↦ exe_path
  | some pos ↦ drop (suc pos) exe_path
]

-- LogDirectoryChange, with the time if there is one.
unfoldable pub log_directory_change : Options → DirectoryChange → Option Text → Outcome Text
log_directory_change options change time_str = do
  arg ← get_action_arg change.action
  let line = (flags_start ∷ arg) ++ 32 ∷ change.name ++ 10 ∷ []
  elim time_str [
    | none ↦ done line
    | some time ↦ if options.print_time then done (91 ∷ time ++ 93 ∷ 32 ∷ line) else done line
  ]

-- The loop of LogOptions over a part of the table.
abbrev pub log_filters : List FlagMeta → ℕ → Text
log_filters [] notify_filter = []
log_filters (filter ∷ others) notify_filter =
    let rest = log_filters others notify_filter in
    if bit_and notify_filter filter.flag == filter.flag then filter.arg ++ rest else rest

-- The flags that LogOptions prints, behind the name of the program and the directory.
unfoldable pub log_flags : Options → Text
log_flags options =
    (if options.verbose then opt_verbose else [])
    ++ (if not options.watch_sub_tree then opt_no_recursive else [])
    ++ log_filters notify_filters options.notify_filter

-- One character of the flags, in ParseCommandLine.
unfoldable pub parse_flag : ℕ → Options → Outcome Options
parse_flag filter_char options =
    let filter_str : Text = filter_char ∷ [] in
    if text_eq filter_str opt_no_recursive
    then done (record options { watch_sub_tree = false })
    else if text_eq filter_str opt_verbose
    then done (record options { verbose = true })
    else do
      flag ← get_filter_from_string filter_str
      done (record options { notify_filter = bit_or options.notify_filter flag })

unfoldable pub parse_flags : Text → Options → Outcome Options
parse_flags [] options = done options
parse_flags (c ∷ flags) options = do options' ← parse_flag c options; parse_flags flags options'

-- One turn of the loop of ParseCommandLine over the arguments from the third on.
unfoldable pub parse_argument : Text → Options → Outcome Options
parse_argument argument options =
    if not options.print_time && text_eq argument time_argument
    then done (record options { print_time = true })
    else if options.notify_filter == 0
    then parse_flags argument options
    else done options

unfoldable pub parse_arguments : List Text → Options → Outcome Options
parse_arguments [] options = done options
parse_arguments (argument ∷ others) options = do
  options' ← parse_argument argument options
  parse_arguments others options'

-- `notify_filter` with the flags of a table added.
abbrev pub all_of : List FlagMeta → ℕ → ℕ
all_of [] notify_filter = notify_filter
all_of (filter ∷ others) notify_filter = all_of others (bit_or notify_filter filter.flag)

-- ParseCommandLine: none if it returns false.
unfoldable pub parse_command_line : List Text → Options → Outcome (Option Options)
parse_command_line [] options = done none
parse_command_line (exe_path ∷ []) options = done none
parse_command_line (exe_path ∷ directory ∷ arguments) options = do
  let start = record options { directory = directory; notify_filter = 0; watch_sub_tree = true }
  options' ← parse_arguments arguments start
  if options'.notify_filter == 0
      then done
          (some (record options' { notify_filter = all_of notify_filters options'.notify_filter }))
      else done (some options')
