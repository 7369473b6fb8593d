-- ===== src/Sockets/Resolve/Endpoints.antt =====
-- The endpoints that a list of addresses stands for.
use win_io.Base.{
  ℕ, zero, suc, ◌≤◌, ◌≡◌, ◌≢◌, refl, arith, false, Option, none, some, List, [], ◌∷◌, ◌++◌, ◌==◌,
  length, if◌then◌else◌, inl, inr, Bool-cases,
}
use win_io.Base.Outcome.{Outcome, done, failed_assert, ◌>>=◌}
use win_io.Os.{Ptr, null, is_null}
use win_io.Sockets.Operation.{EndpointIpv4, SocketAddress}
use win_io.Sockets.Resolve.{AddrInfo, get, next, destroy, move_list}

-- The addresses in memory from `p` on: they end at null, and all are of IPv4.
abbrev pub Chain : (Ptr → AddrInfo) → Ptr → List SocketAddress → Type 0
Chain addr_info p [] = p ≡ null
Chain addr_info p (a ∷ addresses) =
    (p ≢ null)
    × ((addr_info p).ai_addrlen ≡ 16)
    × ((addr_info p).ai_addr ≡ a)
    × Chain addr_info (addr_info p).ai_next addresses

abbrev pub endpoint_of : SocketAddress → EndpointIpv4
endpoint_of a = record { port_network = a.sin_port; ip_network = a.s_addr }

abbrev pub endpoints_of : List SocketAddress → List EndpointIpv4
endpoints_of [] = []
endpoints_of (a ∷ addresses) = endpoint_of a ∷ endpoints_of addresses

-- A loop from `begin` to `end` that collects the endpoints, with fuel for its turns.
unfoldable pub collect : (Ptr → AddrInfo) → (fuel : ℕ) → Ptr → Option (Outcome (List EndpointIpv4))
collect addr_info zero p = if is_null p then some (done []) else none
collect addr_info (suc fuel) p = if is_null p then some (done []) else elim (get addr_info p) [
  | failed_assert ↦ some failed_assert
  | done e ↦ elim (next addr_info p) [
    | failed_assert ↦ some failed_assert
    | done q ↦ elim (collect addr_info fuel q) [
      | none ↦ none
      | some rest ↦ some (do es ← rest; done (e ∷ es))
    ]
  ]
]

get_lem :
    (addr_info : Ptr → AddrInfo) (p : Ptr)
    → p ≢ null
    → (addr_info p).ai_addrlen ≡ 16
    → get addr_info p ≡ done (endpoint_of (addr_info p).ai_addr)
unfolding get
get_lem addr_info p some_p ipv4 = ground (arith, some_p, ipv4)

next_lem :
    (addr_info : Ptr → AddrInfo) (p : Ptr)
    → p ≢ null
    → next addr_info p ≡ done (addr_info p).ai_next
unfolding next
next_lem addr_info p some_p = ground (arith, some_p)

-- Iterating from `begin` to `end` ends, passes no assertion by, and gives every address of the list
-- once, in its order.
pub collect-Chain :
    (addr_info : Ptr → AddrInfo) (addresses : List SocketAddress) (p : Ptr) (fuel : ℕ)
    → Chain addr_info p addresses
    → length addresses ≤ fuel
    → collect addr_info fuel p ≡ some (done (endpoints_of addresses))
unfolding collect
collect-Chain addr_info [] p zero chain enough = ground (arith, chain)
collect-Chain addr_info [] p (suc fuel) chain enough = ground (arith, chain)
collect-Chain addr_info (a ∷ addresses) p zero chain enough = absurd (omega (arith, enough))
collect-Chain addr_info (a ∷ addresses) p (suc fuel) (some_p, ipv4, holds, chain) enough =
    let some_address : (p == 0) ≡ false = ground (arith, some_p) in
    let rest =
      collect-Chain addr_info addresses (addr_info p).ai_next fuel chain (omega (arith, enough)) in
    rw (some_address, get_lem addr_info p some_p ipv4, next_lem addr_info p some_p, rest, holds)
      refl

-- Moving a list into another frees what this one had, so that each of the two lists is freed once
-- when both are destroyed afterwards.
pub move_list-destroy :
    (this rhs : Ptr)
    → let (freed, this', rhs') = move_list this rhs in
      freed ++ (destroy this').0 ++ (destroy rhs').0 ≡ (destroy this).0 ++ (destroy rhs).0
unfolding move_list destroy
move_list-destroy this rhs = elim (Bool-cases (rhs == 0)) [
  | inl empty ↦ rw empty (ground arith)
  | inr full ↦ rw full (ground arith)
]
