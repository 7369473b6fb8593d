-- ===== src/Directory/Watch/Ownership.antt =====
-- Who closes the handle of a directory.
use win_io.Base.{
  ℕ, ◌%◌, true, false, Option, none, some, List, ◌∷◌, ◌==◌, if◌then◌else◌, ◌≡◌, ◌≢◌, inl, inr, refl,
  ◌∙◌, arith, Bool-cases,
}
use win_io.Base.Outcome.{done}
use win_io.Os.{Ptr, null, invalid_handle, ErrorCode, no_error, is_error}
use win_io.Port.Association.{AddsToGiven, associate_with_impl-Outcome}
use win_io.Directory.Watch.{
  WatchApi, DirectoryChanges, WatchSettings, make_on_handle, make_on_name, open_directory, stop,
}

module _ (api : WatchApi) where
  open api use {port_api, create_file}

  -- The handles of directories that are open, and how the functions of Windows change them.
  pub record HasHandles : Type 0 where
    pub opened : port_api.World → List Ptr
    pub refuses :
        (w : port_api.World)
        → (create_file w).0 ≡ invalid_handle
        → (opened (create_file w).1 ≡ opened w)
          × (port_api.get_last_error (create_file w).1 ≢ no_error)
    pub opens :
        (w : port_api.World)
        → (create_file w).0 ≢ invalid_handle
        → ((create_file w).0 ≢ null) × (opened (create_file w).1 ≡ (create_file w).0 ∷ opened w)
    pub closes :
        (h : Ptr) (hs : List Ptr) (w : port_api.World)
        → opened w ≡ h ∷ hs
        → opened (port_api.close_handle h w).1 ≡ hs
    pub keeps_port :
        (device existing : Ptr) (key threads : ℕ) (w : port_api.World)
        → opened (port_api.create_io_completion_port device existing key threads w).1 ≡ opened w
    pub same_port : AddsToGiven port_api

  module _ (handles : HasHandles) where
    open handles use {opened, refuses, opens, closes, keeps_port, same_port}

    -- What `make` hands over: an object that owns one more open handle, or no handle is left open.
    abbrev pub Owned : Option DirectoryChanges → (before after : port_api.World) → Type 0
    Owned none before after = opened after ≡ opened before
    Owned (some o) before after =
        (o.owns_directory ≡ true) × (opened after ≡ o.directory ∷ opened before)

    -- `make` on a name, with a valid port, an aligned buffer and no error in the code that is passed in,
    -- returns without a failed assertion: with an object that owns the only handle that was opened, or
    -- with every handle closed that it has opened.
    pub make_on_name-Owned :
        (settings : WatchSettings) (ov : Ptr) (before : port_api.World)
        → settings.buffer % 4 ≡ 0
        → settings.io_port.io_port ≢ null
        → (o : Option DirectoryChanges) × (ec : ErrorCode) × (after : port_api.World)
          × (make_on_name api no_error settings ov before ≡ done (o, ec, after))
          × Owned o before after
    unfolding make_on_name make_on_handle open_directory
    make_on_name-Owned settings ov before aligned some_port =
        let made = create_file before in
        let (ec, associated) =
          associate_with_impl-Outcome port_api same_port settings.io_port made.0 settings.dir_key
            made.1 some_port in
        elim (Bool-cases (made.0 == invalid_handle)) [
          | inl failed ↦
              let (same, error) = refuses before (ground (arith, failed)) in
              let error' : is_error (port_api.get_last_error made.1) ≡ true =
                ground (arith, error) in
              (none, port_api.get_last_error made.1, made.1, rw (failed, error') refl, same)
          | inr valid ↦
              let (some_handle, added) = opens before (ground (arith, valid)) in
              let aligned' : (settings.buffer % 4 == 0) ≡ true = ground (arith, aligned) in
              let not_null : (made.0 == null) ≡ false = ground (arith, some_handle) in
              let associated_to =
                port_api.create_io_completion_port made.0 settings.io_port.io_port settings.dir_key
                  0 made.1 in
              let own : opened associated_to.1 ≡ made.0 ∷ opened before =
                keeps_port made.0 settings.io_port.io_port settings.dir_key 0 made.1 ∙ added in
              elim (Bool-cases (is_error ec)) [
                | inl failed ↦ (
                  none,
                  ec,
                  (port_api.close_handle made.0 associated_to.1).1,
                  rw (valid, valid, aligned', not_null, associated, failed) refl,
                  closes made.0 (opened before) associated_to.1 own,
                )
                | inr fine ↦ (
                  some (record {
                    io_port = some settings.io_port;
                    directory = made.0;
                    buffer = settings.buffer;
                    dir_key = settings.dir_key;
                    ov = ov;
                    length_bytes = settings.length;
                    notify_filter = settings.notify_filter;
                    owns_directory = true;
                    watch_sub_tree = settings.watch_sub_tree;
                  }),
                  ec,
                  associated_to.1,
                  rw (valid, valid, aligned', not_null, associated, fine, fine) refl,
                  (refl, own),
                )
              ]
        ]

    -- Stopping, or destroying, an object that owns its handle closes that, and doing so again
    -- changes nothing; an object that does not own its handle leaves it open.
    pub stop-closes :
        (o : DirectoryChanges) (hs : List Ptr) (w : port_api.World)
        → opened w ≡ o.directory ∷ hs
        → let stopped = stop api o w in
          (opened stopped.1 ≡ (if o.owns_directory then hs else o.directory ∷ hs))
          × (stop api stopped.0 stopped.1 ≡ stopped)
    unfolding stop
    stop-closes o hs w own = elim (Bool-cases o.owns_directory) [
      | inl owns ↦ rw owns (closes o.directory hs w own, refl)
      | inr borrows ↦ (ground (arith, borrows, own), ground (arith, borrows))
    ]
