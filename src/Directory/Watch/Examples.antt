-- ===== src/Directory/Watch/Examples.antt =====
-- A watch over the port and the buffer of those modules' examples.
use mathlib.Core.List.{tail}
use win_io.Base.{◌∷◌, [], List, Option, some, true, false, ◌≡◌, refl, arith, ap, inr}
use win_io.Base.Outcome.{done}
use win_io.Os.{Ptr, null, ErrorCode, no_error}
use win_io.Port.{PortApi}
use win_io.Port.Examples.{system, port}
use win_io.Directory.Watch.{WatchApi, DirectoryChanges, WatchSettings, make_on_name}
use win_io.Directory.Watch.Ownership.{HasHandles, Owned, make_on_name-Owned}

abbrev pub watched : WatchApi
watched = record {
  port_api = system;
  create_file = λ w. (7, w);
  read_directory_changes = λ directory buffer length sub_tree filter ov w. (true, w);
}

abbrev pub watch : DirectoryChanges
watch = record {
  io_port = some port;
  directory = 7;
  buffer = 100;
  dir_key = 3;
  ov = 500;
  length_bytes = 64;
  notify_filter = 1;
  owns_directory = true;
  watch_sub_tree = false;
}

-- A system whose state is the list of the open handles, in which each new handle is 7.
abbrev ports : PortApi
ports = record {
  World = List Ptr;
  create_io_completion_port = λ device existing key threads w. (existing, w);
  post_queued_completion_status = λ port b k ov w. (false, w);
  get_queued_completion_status = λ port ms w.
      (record { status = false; bytes_transferred = 0; completion_key = 0; overlapped = null }, w);
  get_queued_completion_status_ex = λ port n ms alertable w. ((false, []), w);
  close_handle = λ h w. (true, tail w);
  get_last_error = λ w. 5;
}

abbrev opening : WatchApi
opening = record {
  port_api = ports;
  create_file = λ w. (7, 7 ∷ w);
  read_directory_changes = λ directory buffer length sub_tree filter ov w. (true, w);
}

abbrev opening_handles : HasHandles opening
opening_handles = record {
  opened = λ w. w;
  refuses = λ w e. absurd (omega (arith, e));
  opens = λ w valid. (omega arith, refl);
  closes = λ h hs w own. ap tail own;
  keeps_port = λ device existing key threads w. refl;
  same_port = λ device existing key threads w some_port. inr refl;
}

abbrev settings : WatchSettings
settings = record {
  buffer = 100;
  length = 64;
  watch_sub_tree = false;
  notify_filter = 1;
  io_port = port;
  dir_key = 3;
}

make_on_name-Owned_example :
    (o : Option DirectoryChanges) × (ec : ErrorCode) × (after : List Ptr) × (make_on_name opening
        no_error settings 500
        (3 ∷ [])
      ≡ done (o, ec, after))
    × Owned opening opening_handles o (3 ∷ []) after
make_on_name-Owned_example =
    make_on_name-Owned opening opening_handles settings 500 (3 ∷ []) refl (λ e. omega (arith, e))
