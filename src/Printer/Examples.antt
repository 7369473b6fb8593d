-- ===== src/Printer/Examples.antt =====
-- Command lines, paths and a turn of the loop.
use win_io.Base.{◌<◌, ◌≡◌, ◌⊎◌, refl, arith, true, false, some, [], ◌∷◌, map}
use win_io.Base.Outcome.{done, failed_assert}
use win_io.Os.{no_error}
use win_io.Port.{port_entry}
use win_io.Port.Examples.{system_fifo, port}
use win_io.Directory.Parser.Examples.{memory, added, removed, both-Layout}
use win_io.Directory.Watch.{start_watch}
use win_io.Directory.Watch.Examples.{watched, watch}
use win_io.Printer.{
  Options, default_options, parse_command_line, parse_arguments, parse_argument, parse_flags,
  parse_flag, get_filter_from_string,
}
use win_io.Printer.Flags.{printed, parse_command_line-printed}
use win_io.Printer.Filters.{parse_command_line-filters}
use win_io.Printer.Watching.{watch_turn}
use win_io.Printer.Lines.{line_of, watch_turn-lines}

-- "tool", "dir" with the flags "v.fs" and the time.
abbrev options : Options
options = record {
  watch_sub_tree = false;
  notify_filter = 9;
  directory = 100 ∷ 105 ∷ 114 ∷ [];
  verbose = true;
  print_time = true;
}

parse_command_line-printed_example :
    parse_command_line (printed (116 ∷ 111 ∷ 111 ∷ 108 ∷ []) options) default_options
    ≡ done (some options)
parse_command_line-printed_example =
    parse_command_line-printed (116 ∷ 111 ∷ 111 ∷ 108 ∷ []) options (omega arith) (omega arith)

-- "s" stands for the size.
abbrev size_only : Options
size_only = record {
  watch_sub_tree = true;
  notify_filter = 8;
  directory = 46 ∷ [];
  verbose = false;
  print_time = false;
}

parses_size :
    parse_command_line ([] ∷ (46 ∷ []) ∷ (115 ∷ []) ∷ []) default_options ≡ done (some size_only)
unfolding parse_command_line parse_arguments parse_argument parse_flags parse_flag
    get_filter_from_string
parses_size = refl

parse_command_line-filters_example :
    ((0 < size_only.notify_filter) × (size_only.notify_filter < 128))
    ⊎ (size_only.notify_filter ≡ 383)
parse_command_line-filters_example =
    parse_command_line-filters ([] ∷ (46 ∷ []) ∷ (115 ∷ []) ∷ []) default_options size_only
      parses_size

starts : (start_watch watched watch (port_entry 32 3 500 ∷ [], no_error)).0 ≡ no_error
unfolding start_watch
starts = refl

still_queued :
    (start_watch watched watch (port_entry 32 3 500 ∷ [], no_error)).1.0 ≡ port_entry 32 3 500 ∷ []
unfolding start_watch
still_queued = refl

watch_turn-lines_example :
    (w' : watched.port_api.World) × (watch_turn watched 4 memory failed_assert default_options port
        watch
        (port_entry 32 3 500 ∷ [], no_error)
      ≡ done (some (map line_of (added ∷ removed ∷ [])), w'))
watch_turn-lines_example =
    watch_turn-lines watched system_fifo watch port default_options failed_assert
      (port_entry 32 3 500 ∷ [], no_error) [] memory 4 32 added (removed ∷ []) refl starts
      still_queued both-Layout (omega arith) (omega arith) (omega arith)
      (omega arith, omega arith, (omega arith, omega arith, record {}))
