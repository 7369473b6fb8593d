-- ===== src/File/Open/Examples.antt =====
-- A system whose state is the list of the open handles, in which each new handle is 7.
use mathlib.Core.List.{tail}
use win_io.Base.{◌≡◌, refl, List, [], ◌∷◌, true, false, ap, inr, arith}
use win_io.Base.Outcome.{done}
use win_io.Os.{Ptr, null, ErrorCode}
use win_io.Port.{PortApi}
use win_io.Port.Examples.{port}
use win_io.File.Open.{FileApi, AsyncFile, open_file}
use win_io.File.Open.Ownership.{HasFiles, Opened, open_file-Owns}

abbrev ports : PortApi
ports = record {
  World = List Ptr;
  create_io_completion_port = λ device existing key threads w. (existing, w);
  post_queued_completion_status = λ port b k ov w. (false, w);
  get_queued_completion_status = λ port ms w.
      (record { status = false; bytes_transferred = 0; completion_key = 0; overlapped = null }, w);
  get_queued_completion_status_ex = λ port n ms alertable w. ((false, []), w);
  close_handle = λ h w. (true, tail w);
  get_last_error = λ w. 5;
}

-- Files are opened, but have no size: the third of the calls fails.
abbrev files : FileApi
files = record {
  port_api = ports;
  create_file = λ w. (7, 7 ∷ w);
  set_completion_notification_modes = λ h w. (true, w);
  get_file_size = λ h w. ((false, 0), w);
}

abbrev handles : HasFiles files
handles = record {
  opened = λ w. w;
  refuses = λ w e. absurd (omega (arith, e));
  opens = λ w valid. refl;
  keeps_modes = λ h w. refl;
  keeps_size = λ h w. refl;
  closes = λ h hs w own. ap tail own;
  keeps_port = λ device existing key threads w. refl;
  same_port = λ device existing key threads w some_port. inr refl;
}

open_file-Owns_example :
    (o : AsyncFile) × (ec : ErrorCode) × (after : List Ptr) × (open_file files 99 port (3 ∷ [])
      ≡ done (o, ec, after))
    × Opened files handles o ec (3 ∷ []) after
open_file-Owns_example = open_file-Owns files handles 99 port (3 ∷ []) (λ e. omega (arith, e))

abbrev new : AsyncFile
new = record { file_handle = 7; iocp = 99; file_size = 20 }
