-- ===== src/Gateway/Http/Socket/Documented.antt =====
-- The documented behaviour of the calls on a socket.
use rust_enterprise_query_en.Common.{ℕ, suc, ◌-◌, Bool, Option, some, Result, ok, err, ◌≡◌, ◌⊎◌}
use rust_enterprise_query_en.Gateway.Http.Socket.{Domain, SocketAddr, v4, v6, Sockets}

-- What can be read of a socket.
pub record Options : Type 0 where
  pub reuse_address : Bool
  pub reuse_port : Bool
  pub nodelay : Bool
  pub nonblocking : Bool
  pub bound : Option SocketAddr
  pub backlog : Option ℕ

abbrev pub with_reuse_address : Bool → Options → Options
with_reuse_address b o = record o { reuse_address = b }

abbrev pub with_reuse_port : Bool → Options → Options
with_reuse_port b o = record o { reuse_port = b }

abbrev pub with_nodelay : Bool → Options → Options
with_nodelay b o = record o { nodelay = b }

abbrev pub with_nonblocking : Bool → Options → Options
with_nonblocking b o = record o { nonblocking = b }

abbrev pub with_address : SocketAddr → Options → Options
with_address addr o = record o { bound = some addr }

abbrev pub with_backlog : ℕ → Options → Options
with_backlog n o = record o { backlog = some n }

abbrev pub unchanged : Options → Options
unchanged o = o

-- The address that the system gives for one that is asked for: of the same kind and with the same
-- ip, and with the same port, or with any if port 0 is asked for.
abbrev pub Gives : SocketAddr → SocketAddr → Type 0
Gives (v4 ip port) (v4 ip' port') = (ip' ≡ ip) × ((port ≡ 0) ⊎ (port' ≡ port))
Gives (v6 ip port) (v6 ip' port') = (ip' ≡ ip) × ((port ≡ 0) ⊎ (port' ≡ port))
Gives _ _ = ⊥

-- A call changes the options so if it succeeds, and it opens and closes no socket.
abbrev pub Changes :
    (api : Sockets) (options : api.World → api.Socket → Options) (open_count : api.World → ℕ)
    → api.Socket
    → (Options → Options)
    → (api.World → api.World × Result api.IoError (Unit {0}))
    → Type 0
Changes api options open_count s f call =
    (w : api.World)
    → (open_count (call w).0 ≡ open_count w)
      × ((call w).1 ≡ ok tt → options (call w).0 s ≡ f (options w s))

-- The documented behaviour of the calls. What the system makes of a wanted buffer size is its own.
pub record SocketLaws (api : Sockets) : Type 0 where
  pub options : api.World → api.Socket → Options
  pub open_count : api.World → ℕ
  pub socket_of : api.Listener → api.Socket
  pub new_opens :
      (domain : Domain) (w : api.World) (s : api.Socket)
      → (api.new_stream domain w).1 ≡ ok s
      → open_count (api.new_stream domain w).0 ≡ suc (open_count w)
  pub new_fails :
      (domain : Domain) (w : api.World) (e : api.IoError)
      → (api.new_stream domain w).1 ≡ err e
      → open_count (api.new_stream domain w).0 ≡ open_count w
  pub reuses_address :
      (s : api.Socket) (b : Bool)
      → Changes api options open_count s (with_reuse_address b) (api.set_reuse_address s b)
  pub reuses_port :
      (s : api.Socket) (b : Bool)
      → Changes api options open_count s (with_reuse_port b) (api.set_reuse_port s b)
  pub has_nodelay :
      (s : api.Socket) (b : Bool)
      → Changes api options open_count s (with_nodelay b) (api.set_nodelay s b)
  pub receives :
      (s : api.Socket) (n : ℕ)
      → Changes api options open_count s unchanged (api.set_recv_buffer_size s n)
  pub sends :
      (s : api.Socket) (n : ℕ)
      → Changes api options open_count s unchanged (api.set_send_buffer_size s n)
  pub is_nonblocking :
      (s : api.Socket) (b : Bool)
      → Changes api options open_count s (with_nonblocking b) (api.set_nonblocking s b)
  -- The local address that `bind` gives.
  pub given : api.World → api.Socket → SocketAddr → SocketAddr
  pub gives : (w : api.World) (s : api.Socket) (addr : SocketAddr) → Gives addr (given w s addr)
  pub bind_counts :
      (s : api.Socket) (addr : SocketAddr) (w : api.World)
      → open_count (api.bind s addr w).0 ≡ open_count w
  pub binds :
      (s : api.Socket) (addr : SocketAddr) (w : api.World)
      → (api.bind s addr w).1 ≡ ok tt
      → options (api.bind s addr w).0 s ≡ with_address (given w s addr) (options w s)
  pub listens :
      (s : api.Socket) (n : ℕ) → Changes api options open_count s (with_backlog n) (api.listen s n)
  pub hands_over :
      (s : api.Socket) (w : api.World) (l : api.Listener)
      → (api.from_std s w).1 ≡ ok l
      → open_count (api.from_std s w).0 ≡ open_count w
  -- A listener that was taken over in vain is dropped.
  pub drops :
      (s : api.Socket) (w : api.World) (e : api.IoError)
      → (api.from_std s w).1 ≡ err e
      → open_count (api.from_std s w).0 ≡ open_count w - 1
  pub keeps_options :
      (s : api.Socket) (w : api.World) (l : api.Listener)
      → (api.from_std s w).1 ≡ ok l
      → options (api.from_std s w).0 (socket_of l) ≡ options w s
  pub closes : (s : api.Socket) (w : api.World) → open_count (api.close s w) ≡ open_count w - 1
