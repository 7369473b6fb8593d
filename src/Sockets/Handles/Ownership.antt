-- ===== src/Sockets/Handles/Ownership.antt =====
-- Who closes a socket.
use win_io.Base.{
  ℕ, Bool, true, false, Option, none, some, List, ◌∷◌, ◌==◌, if◌then◌else◌, ◌≡◌, ◌≢◌, refl, ap, ◌∙◌,
  inl, inr, arith, Bool-cases,
}
use win_io.Base.Outcome.{Outcome, done, failed_assert}
use win_io.Os.{Ptr, null, invalid_handle, ErrorCode, is_error}
use win_io.Port.Association.{AddsToGiven, associate_with_impl-Outcome}
use win_io.Port.{IoCompletionPort, associate_with_impl}
use win_io.Sockets.Operation.{client_key}
use win_io.Sockets.Handles.{
  SocketApi, AsyncSocket, no_socket, disconnect, close_socket, tcp_move_assign, udp_move_assign,
  prepare, tcp_make, udp_make, sock_stream, ipproto_tcp, sock_dgram, ipproto_udp,
}

module _ (api : SocketApi) where
  open api use {
    port_api, wsa_socket, set_completion_notification_modes, ioctlsocket, shutdown, closesocket,
  }

  -- The sockets that are open, and how the functions of Windows change them.
  pub record HasSockets : Type 0 where
    pub opened : port_api.World → List Ptr
    pub refuses :
        (kind protocol : ℕ) (w : port_api.World)
        → (wsa_socket kind protocol w).0 ≡ invalid_handle
        → opened (wsa_socket kind protocol w).1 ≡ opened w
    pub opens :
        (kind protocol : ℕ) (w : port_api.World)
        → (wsa_socket kind protocol w).0 ≢ invalid_handle
        → opened (wsa_socket kind protocol w).1 ≡ (wsa_socket kind protocol w).0 ∷ opened w
    pub closes :
        (h : Ptr) (hs : List Ptr) (w : port_api.World)
        → opened w ≡ h ∷ hs
        → opened (closesocket h w) ≡ hs
    pub keeps_modes :
        (h : Ptr) (w : port_api.World) → opened (set_completion_notification_modes h w).1 ≡ opened w
    pub keeps_ioctl : (h : Ptr) (w : port_api.World) → opened (ioctlsocket h w).1 ≡ opened w
    pub keeps_shutdown : (h : Ptr) (w : port_api.World) → opened (shutdown h w) ≡ opened w
    pub keeps_port :
        (device existing : Ptr) (key threads : ℕ) (w : port_api.World)
        → opened (port_api.create_io_completion_port device existing key threads w).1 ≡ opened w
    pub same_port : AddsToGiven port_api

  module _ (sockets : HasSockets) where
    open sockets use {
      opened, refuses, opens, closes, keeps_modes, keeps_ioctl, keeps_shutdown, keeps_port,
      same_port,
    }

    -- What `make` hands over: its caller owns one more open socket, or no socket is left open.
    abbrev pub Owned : Option AsyncSocket → (before after : port_api.World) → Type 0
    Owned none before after = opened after ≡ opened before
    Owned (some o) before after =
        (o.socket ≢ invalid_handle) × (opened after ≡ o.socket ∷ opened before)

    abbrev Made :
        Outcome (Option AsyncSocket × ErrorCode × port_api.World) → port_api.World → Type 0
    Made failed_assert before = ⊥
    Made (done (o, _, after)) before = Owned o before after

    -- Releasing an owned socket closes it, and releasing it again changes nothing.
    disconnect-closes :
        (o : AsyncSocket) (hs : List Ptr) (w : port_api.World)
        → o.socket ≢ invalid_handle
        → opened w ≡ o.socket ∷ hs
        → (opened (disconnect api o w).1 ≡ hs) × (opened (close_socket api o w).1 ≡ hs)
    unfolding disconnect close_socket
    disconnect-closes o hs w valid own =
        let owned : (o.socket == invalid_handle) ≡ false = ground (arith, valid) in
        (
          rw owned (closes o.socket hs (shutdown o.socket w) (keeps_shutdown o.socket w ∙ own)),
          rw owned (closes o.socket hs w own),
        )

    module _ (release : AsyncSocket → port_api.World → AsyncSocket × port_api.World)
        (frees : (o : AsyncSocket) (hs : List Ptr) (w : port_api.World)
          → o.socket ≢ invalid_handle
          → opened w ≡ o.socket ∷ hs
          → opened (release o w).1 ≡ hs)
        (ignores : (w : port_api.World) → (release no_socket w).1 ≡ w) where
      prepare-Made :
          (o : AsyncSocket) (iocp : IoCompletionPort) (before w : port_api.World)
          → o.socket ≢ invalid_handle
          → opened w ≡ o.socket ∷ opened before
          → iocp.io_port ≢ null
          → Made (prepare api release o iocp w) before
      unfolding associate_with_impl
      prepare-Made o iocp before w valid own some_port =
          let w1 = (set_completion_notification_modes o.socket w).1 in
          let own1 = keeps_modes o.socket w ∙ own in
          let w2 = (ioctlsocket o.socket w1).1 in
          let own2 = keeps_ioctl o.socket w1 ∙ own1 in
          let w3 = (port_api.create_io_completion_port o.socket iocp.io_port client_key 0 w2).1 in
          let own3 = keeps_port o.socket iocp.io_port client_key 0 w2 ∙ own2 in
          elim (Bool-cases (set_completion_notification_modes o.socket w).0) [
            | inr failed ↦ rw failed (frees o (opened before) w1 valid own1)
            | inl ok ↦ elim (Bool-cases ((ioctlsocket o.socket w1).0 == 0)) [
              | inr failed ↦ rw (ok, failed) (frees o (opened before) w2 valid own2)
              | inl ok' ↦
                  let (ec, associated) =
                    associate_with_impl-Outcome port_api same_port iocp o.socket client_key w2
                      some_port in
                  elim (Bool-cases (is_error ec)) [
                    | inl failed ↦
                        rw (ok, ok', associated, failed) (frees o (opened before) w3 valid own3)
                    | inr fine ↦
                        rw (ok, ok', associated, fine) (valid, ap opened (ignores w3) ∙ own3)
                  ]
            ]
          ]

    Made-if :
        (x y : Outcome (Option AsyncSocket × ErrorCode × port_api.World)) (b : Bool)
        (before : port_api.World)
        → (b ≡ true → Made x before)
        → (b ≡ false → Made y before)
        → Made (if b then x else y) before
    Made-if x y true before made made' = made refl
    Made-if x y false before made made' = made' refl

    tcp-Made :
        (address : Ptr) (iocp : IoCompletionPort) (before : port_api.World)
        → iocp.io_port ≢ null
        → Made (tcp_make api address iocp before) before
    unfolding tcp_make
    tcp-Made address iocp before some_port =
        let made = wsa_socket sock_stream ipproto_tcp before in
        Made-if _ _ (made.0 == invalid_handle) before
          (λ none_made.
            rw none_made (refuses sock_stream ipproto_tcp before (ground (arith, none_made))))
          λ valid.
            let valid' : made.0 ≢ invalid_handle = ground (arith, valid) in
            prepare-Made (disconnect api) (λ o hs w v own. (disconnect-closes o hs w v own).0)
              (λ w. refl) (record { socket = made.0; iocp = address }) iocp before made.1 valid'
              (opens sock_stream ipproto_tcp before valid') some_port

    udp-Made :
        (address : Ptr) (iocp : IoCompletionPort) (before : port_api.World)
        → iocp.io_port ≢ null
        → Made (udp_make api address iocp before) before
    unfolding udp_make
    udp-Made address iocp before some_port =
        let made = wsa_socket sock_dgram ipproto_udp before in
        Made-if _ _ (made.0 == invalid_handle) before
          (λ none_made.
            rw none_made (refuses sock_dgram ipproto_udp before (ground (arith, none_made))))
          λ valid.
            let valid' : made.0 ≢ invalid_handle = ground (arith, valid) in
            prepare-Made (close_socket api) (λ o hs w v own. (disconnect-closes o hs w v own).1)
              (λ w. refl) (record { socket = made.0; iocp = address }) iocp before made.1 valid'
              (opens sock_dgram ipproto_udp before valid') some_port

    -- With a valid port, `make` of a TCP or a UDP socket returns, and no assertion fails: if it hands
    -- over a socket, that is open, is valid and is the only one that was opened; if it reports an error,
    -- every socket that it opened is closed again.
    pub make-Owned :
        (address : Ptr) (iocp : IoCompletionPort) (before : port_api.World)
        → iocp.io_port ≢ null
        → ((o : Option AsyncSocket) × (ec : ErrorCode) × (after : port_api.World) × (tcp_make api
                address iocp before
              ≡ done (o, ec, after))
            × Owned o before after)
          × ((o : Option AsyncSocket) × (ec : ErrorCode) × (after : port_api.World) × (udp_make api
                  address iocp before
                ≡ done (o, ec, after))
              × Owned o before after)
    make-Owned address iocp before some_port = (
      of_Made (tcp_make api address iocp before) (tcp-Made address iocp before some_port),
      of_Made (udp_make api address iocp before) (udp-Made address iocp before some_port),
    )
      where
        of_Made :
            (m : Outcome (Option AsyncSocket × ErrorCode × port_api.World))
            → Made m before
            → (o : Option AsyncSocket) × (ec : ErrorCode) × (after : port_api.World) × (m
                ≡ done (o, ec, after))
              × Owned o before after
        of_Made (done (o, ec, after)) made = (o, ec, after, refl, made)
        of_Made failed_assert made = absurd made

    -- Moving a socket into an object that owns another closes that one; what is moved is closed
    -- when the target is released, and just then: releasing the source, and releasing the target
    -- again, does nothing. The same holds for both kinds of socket.
    pub move_assign-closes :
        (this rhs : AsyncSocket) (hs : List Ptr) (w : port_api.World)
        → this.socket ≢ invalid_handle
        → rhs.socket ≢ invalid_handle
        → opened w ≡ this.socket ∷ rhs.socket ∷ hs
        → (let (target, source, moved) = tcp_move_assign api this rhs w in
            (opened (disconnect api source moved).1 ≡ rhs.socket ∷ hs)
            × (opened (disconnect api target moved).1 ≡ hs)
            × (disconnect api (disconnect api target moved).0 (disconnect api target moved).1
                ≡ (no_socket, (disconnect api target moved).1)))
          × (let (target, source, moved) = udp_move_assign api this rhs w in
              (opened (close_socket api source moved).1 ≡ rhs.socket ∷ hs)
              × (opened (close_socket api target moved).1 ≡ hs)
              × (close_socket api
                    (close_socket api target moved).0
                    (close_socket api target moved).1
                  ≡ (no_socket, (close_socket api target moved).1)))
    unfolding tcp_move_assign udp_move_assign
    move_assign-closes this rhs hs w valid valid' own =
        let (tcp, udp) = disconnect-closes this (rhs.socket ∷ hs) w valid own in
        let owned : (rhs.socket == invalid_handle) ≡ false = ground (arith, valid') in
        (
          (tcp, (disconnect-closes rhs hs (disconnect api this w).1 valid' tcp).0, rw owned refl),
          (udp, (disconnect-closes rhs hs (close_socket api this w).1 valid' udp).1, rw owned refl),
        )
