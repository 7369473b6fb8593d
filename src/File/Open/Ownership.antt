-- ===== src/File/Open/Ownership.antt =====
-- Who closes the handle of a file.
use win_io.Base.{
  ℕ, ◌%◌, ◌^◌, false, List, ◌∷◌, ◌==◌, if◌then◌else◌, ◌≡◌, ◌≢◌, inl, inr, refl, ◌∙◌, arith,
  Bool-cases,
}
use win_io.Base.Outcome.{done}
use win_io.Os.{Ptr, null, invalid_handle, ErrorCode, no_error}
use win_io.Port.{IoCompletionPort}
use win_io.Port.Association.{AddsToGiven, associate_with_impl-Outcome}
use win_io.File.Task.{file_key}
use win_io.File.Open.{FileApi, AsyncFile, open_file, close_file, move_file}

module _ (api : FileApi) where
  open api use {port_api, create_file, set_completion_notification_modes, get_file_size}

  -- The handles of files that are open, and how the functions of Windows change them.
  pub record HasFiles : Type 0 where
    pub opened : port_api.World → List Ptr
    pub refuses :
        (w : port_api.World)
        → (create_file w).0 ≡ invalid_handle
        → (opened (create_file w).1 ≡ opened w)
          × (port_api.get_last_error (create_file w).1 ≢ no_error)
    pub opens :
        (w : port_api.World)
        → (create_file w).0 ≢ invalid_handle
        → opened (create_file w).1 ≡ (create_file w).0 ∷ opened w
    pub keeps_modes :
        (h : Ptr) (w : port_api.World) → opened (set_completion_notification_modes h w).1 ≡ opened w
    pub keeps_size : (h : Ptr) (w : port_api.World) → opened (get_file_size h w).1 ≡ opened w
    pub closes :
        (h : Ptr) (hs : List Ptr) (w : port_api.World)
        → opened w ≡ h ∷ hs
        → opened (port_api.close_handle h w).1 ≡ hs
    pub keeps_port :
        (device existing : Ptr) (key threads : ℕ) (w : port_api.World)
        → opened (port_api.create_io_completion_port device existing key threads w).1 ≡ opened w
    pub same_port : AddsToGiven port_api

  module _ (handles : HasFiles) where
    open handles use {
      opened, refuses, opens, keeps_modes, keeps_size, closes, keeps_port, same_port,
    }

    -- A file owns the one handle that is open beside the given ones, or has none.
    abbrev pub Owns : AsyncFile → (others : List Ptr) → port_api.World → Type 0
    Owns o others w =
        opened w ≡ (if o.file_handle == invalid_handle then others else o.file_handle ∷ others)

    -- Closing, or destroying, a file closes the handle that it owns, and doing so again changes
    -- nothing.
    pub close_file-Owns :
        (o : AsyncFile) (others : List Ptr) (w : port_api.World)
        → Owns o others w
        → (opened (close_file api o w).1 ≡ others)
          × (close_file api (close_file api o w).0 (close_file api o w).1 ≡ close_file api o w)
    unfolding close_file
    close_file-Owns o others w owns = elim (Bool-cases (o.file_handle == invalid_handle)) [
      | inl none_open ↦ (ground (arith, none_open, owns), ground (arith, none_open))
      | inr valid ↦ (
        rw valid (closes o.file_handle others w (ground (arith, valid, owns))),
        ground (arith, valid),
      )
    ]

    -- What a call of `open` promises: the file owns the handle that was opened, closing it leaves open
    -- what was open before, and there is an error if there is no handle.
    pub record Opened (o : AsyncFile) (ec : ErrorCode) (others : List Ptr) (w : port_api.World)
        : Type 0 where
      pub owns : Owns o others w
      pub restores : opened (close_file api o w).1 ≡ others
      pub told : o.file_handle ≡ invalid_handle → ec ≢ no_error

    -- A file with the handle that was opened last.
    Owns-opened :
        (o : AsyncFile) (ec : ErrorCode) (others : List Ptr) (w : port_api.World)
        → (o.file_handle == invalid_handle) ≡ false
        → opened w ≡ o.file_handle ∷ others
        → Opened o ec others w
    Owns-opened o ec others w valid own =
        let owns : Owns o others w = rw valid own in
        record {
          owns = owns;
          restores = (close_file-Owns o others w owns).0;
          told = λ same. absurd (ground (arith, valid, same));
        }

    -- With a valid port, opening a file returns on every path, without a failed assertion, with a file
    -- that owns the handle that it has opened: closing that leaves open what was open before. A file
    -- without a handle is returned with an error.
    pub open_file-Owns :
        (address : Ptr) (port : IoCompletionPort) (before : port_api.World)
        → port.io_port ≢ null
        → (o : AsyncFile) × (ec : ErrorCode) × (after : port_api.World) × (open_file api address
              port before
            ≡ done (o, ec, after))
          × Opened o ec (opened before) after
    unfolding open_file
    open_file-Owns address port before some_port =
        let created = create_file before in
        let moded = set_completion_notification_modes created.0 created.1 in
        let sized = get_file_size created.0 moded.1 in
        let (ec, associated) =
          associate_with_impl-Outcome port_api same_port port created.0 file_key sized.1
            some_port in
        let file : ℕ → AsyncFile =
          λ size. record { file_handle = created.0; iocp = address; file_size = size } in
        elim (Bool-cases (created.0 == invalid_handle)) [
          | inl failed ↦
              let (same, error) = refuses before (ground (arith, failed)) in
              let own : Owns (file 0) (opened before) created.1 = rw (failed) same in
              (
                file 0,
                port_api.get_last_error created.1,
                created.1,
                rw (failed) refl,
                record {
                  owns = own;
                  restores = (close_file-Owns (file 0) (opened before) created.1 own).0;
                  told = λ _. error;
                },
              )
          | inr valid ↦
              let some_file : created.0 ≢ invalid_handle = ground (arith, valid) in
              let own1 : opened created.1 ≡ created.0 ∷ opened before = opens before some_file in
              let own2 = keeps_modes created.0 created.1 ∙ own1 in
              let own3 = keeps_size created.0 moded.1 ∙ own2 in
              let own4 = keeps_port created.0 port.io_port file_key 0 sized.1 ∙ own3 in
              elim (Bool-cases moded.0) [
                | inr failed ↦ (
                  file 0,
                  port_api.get_last_error moded.1,
                  moded.1,
                  rw (valid, failed) refl,
                  Owns-opened (file 0) (port_api.get_last_error moded.1) (opened before) moded.1
                      valid own2,
                )
                | inl fine ↦ elim (Bool-cases sized.0.0) [
                  | inr failed ↦ (
                    file 0,
                    port_api.get_last_error sized.1,
                    sized.1,
                    rw (valid, fine, failed) refl,
                    Owns-opened (file 0) (port_api.get_last_error sized.1) (opened before) sized.1
                        valid own3,
                  )
                  | inl has_size ↦
                      let file' = file (sized.0.1 % 2 ^ 64) in
                      let after =
                        (port_api.create_io_completion_port created.0 port.io_port file_key 0
                          sized.1).1 in
                      (
                        file',
                        ec,
                        after,
                        rw (valid, fine, has_size, associated) refl,
                        Owns-opened file' ec (opened before) after valid own4,
                      )
                ]
              ]
        ]

    -- Moving a file into another closes the handle that this one had, and leaves the other one
    -- without a handle: each of the two owns what it had before or nothing.
    pub move_file-Owns :
        (this rhs : AsyncFile) (others : List Ptr) (w : port_api.World)
        → rhs.file_handle ≢ invalid_handle
        → Owns this (rhs.file_handle ∷ others) w
        → let (this', rhs', w') = move_file api this rhs w in
          (this' ≡ rhs) × Owns this' others w' × (close_file api rhs' w' ≡ (rhs', w'))
    unfolding move_file close_file
    move_file-Owns this rhs others w valid owns =
        let closed = close_file-Owns this (rhs.file_handle ∷ others) w owns in
        let is_valid : (rhs.file_handle == invalid_handle) ≡ false = ground (arith, valid) in
        (refl, rw is_valid closed.0, refl)
