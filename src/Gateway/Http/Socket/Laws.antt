-- ===== src/Gateway/Http/Socket/Laws.antt =====
-- What `create_tuned_tcp_listener` of src/gateway/http/socket.rs gives, and what it leaves behind.
use mathlib.Core.Path.{subst}
use rust_enterprise_query_en.Common.{
  ℕ, suc, ◌-◌, ◌*◌, true, some, Result, ok, err, ◌≡◌, refl, sym, ap, ◌∙◌, and_then, arith,
}
use rust_enterprise_query_en.Gateway.Http.Socket.{
  SocketAddr, Sockets, domain_of, tune, drop_failed, create_tuned_tcp_listener,
}
use rust_enterprise_query_en.Gateway.Http.Socket.Documented.{
  Options, Gives, Changes, SocketLaws, with_reuse_address, with_reuse_port, with_nodelay,
  with_nonblocking, with_address, with_backlog, unchanged,
}

-- Every option is set, and the socket listens at the address that is given for the one asked for.
pub record IsTuned (addr : SocketAddr) (o : Options) : Type 0 where
  pub local : SocketAddr
  pub fits : Gives addr local
  pub reuses_address : o.reuse_address ≡ true
  pub reuses_port : o.reuse_port ≡ true
  pub has_nodelay : o.nodelay ≡ true
  pub is_nonblocking : o.nonblocking ≡ true
  pub at_address : o.bound ≡ some local
  pub with_room : o.backlog ≡ some 1024

module _ (api : Sockets) (laws : SocketLaws api) where
  open api use {World, Socket, Listener, IoError}
  open laws use {options, open_count, socket_of}

  -- After the calls on a socket as many are open, and its options are such if they all succeed.
  abbrev Tunes : ℕ → (Options → Type 0) → Socket → World × Result IoError (Unit {0}) → Type 0
  Tunes n P s (w, ok _) = (open_count w ≡ n) × P (options w s)
  Tunes n P s (w, err e) = open_count w ≡ n

  and_then-Tunes :
      (n : ℕ) (P : Options → Type 0) (before : Options) (s : Socket)
      (out : World × Result IoError (Unit {0}))
      (next : World → Unit {0} → World × Result IoError (Unit {0}))
      → open_count out.0 ≡ n
      → (out.1 ≡ ok tt → options out.0 s ≡ before)
      → ((w' : World) → open_count w' ≡ n → options w' s ≡ before → Tunes n P s (next w' tt))
      → Tunes n P s (and_then out next)
  and_then-Tunes n P before s (w', ok tt) next counted changed h = h w' counted (changed refl)
  and_then-Tunes n P before s (w', err e) next counted changed h = counted

  -- One call, and what follows it.
  call-Tunes :
      (n : ℕ) (P : Options → Type 0) (before : Options) (s : Socket) (w : World)
      (f : Options → Options) (call : World → World × Result IoError (Unit {0}))
      (next : World → Unit {0} → World × Result IoError (Unit {0}))
      → Changes api options open_count s f call
      → open_count w ≡ n
      → options w s ≡ before
      → ((w' : World) → open_count w' ≡ n → options w' s ≡ f before → Tunes n P s (next w' tt))
      → Tunes n P s (and_then (call w) next)
  call-Tunes n P before s w f call next changes counted had h =
      let (kept, changed) = changes w in
      and_then-Tunes n P (f before) s (call w) next (kept ∙ counted) (λ e. changed e ∙ ap f had) h

  last-Tunes :
      (n : ℕ) (P : Options → Type 0) (after : Options) (s : Socket)
      (out : World × Result IoError (Unit {0}))
      → open_count out.0 ≡ n
      → (out.1 ≡ ok tt → options out.0 s ≡ after)
      → P after
      → Tunes n P s out
  last-Tunes n P after s (w', ok tt) counted changed p = (counted, subst P (sym (changed refl)) p)
  last-Tunes n P after s (w', err e) counted changed p = counted

  -- The call of `bind`, and of `listen` behind it.
  bind-Tunes :
      (s : Socket) (addr : SocketAddr) (n : ℕ) (w : World) (before : Options)
      → open_count w ≡ n
      → options w s ≡ before
      → before.reuse_address ≡ true
      → before.reuse_port ≡ true
      → before.nodelay ≡ true
      → before.nonblocking ≡ true
      → Tunes n (IsTuned addr) s (and_then (api.bind s addr w) λ w' _. api.listen s 1024 w')
  bind-Tunes s addr n w before counted had address port delay block =
      let local = laws.given w s addr in
      and_then-Tunes n (IsTuned addr) (with_address local before) s (api.bind s addr w) _
        (laws.bind_counts s addr w ∙ counted)
        (λ e. laws.binds s addr w e ∙ ap (with_address local) had)
        λ w' c o.
          let (kept, changed) = laws.listens s 1024 w' in
          last-Tunes n (IsTuned addr) (with_backlog 1024 (with_address local before)) s
            (api.listen s 1024 w') (kept ∙ c) (λ e. changed e ∙ ap (with_backlog 1024) o)
            (record {
              local = local;
              fits = laws.gives w s addr;
              reuses_address = address;
              reuses_port = port;
              has_nodelay = delay;
              is_nonblocking = block;
              at_address = refl;
              with_room = refl;
            })

  tune-Tunes :
      (s : Socket) (addr : SocketAddr) (w : World)
      → Tunes (open_count w) (IsTuned addr) s (tune api s addr w)
  unfolding tune
  tune-Tunes s addr w =
      let n = open_count w in
      let P = IsTuned addr in
      call-Tunes n P _ s w (with_reuse_address true) _ _ (laws.reuses_address s true) refl refl
        λ w1 c1 o1.
          call-Tunes n P _ s w1 (with_reuse_port true) _ _ (laws.reuses_port s true) c1 o1
            λ w2 c2 o2.
              call-Tunes n P _ s w2 (with_nodelay true) _ _ (laws.has_nodelay s true) c2 o2
                λ w3 c3 o3.
                  call-Tunes n P _ s w3 unchanged _ _ (laws.receives s (128 * 1024)) c3 o3
                    λ w4 c4 o4.
                      call-Tunes n P _ s w4 unchanged _ _ (laws.sends s (128 * 1024)) c4 o4
                        λ w5 c5 o5.
                          call-Tunes n P _ s w5 (with_nonblocking true) _ _
                            (laws.is_nonblocking s true) c5 o5
                            λ w6 c6 o6. bind-Tunes s addr n w6 _ c6 o6 refl refl refl refl

  -- A socket more is open where a listener is given, with such options, and else as many as before.
  abbrev pub Leaves : ℕ → SocketAddr → World × Result IoError Listener → Type 0
  Leaves n addr (w, ok l) = (open_count w ≡ suc n) × IsTuned addr (options w (socket_of l))
  Leaves n addr (w, err e) = open_count w ≡ n

  listener-Leaves :
      (n : ℕ) (addr : SocketAddr) (s : Socket) (w : World) (out : World × Result IoError Listener)
      → open_count w ≡ suc n
      → IsTuned addr (options w s)
      → ((l : Listener) → out.1 ≡ ok l → open_count out.0 ≡ open_count w)
      → ((l : Listener) → out.1 ≡ ok l → options out.0 (socket_of l) ≡ options w s)
      → ((e : IoError) → out.1 ≡ err e → open_count out.0 ≡ open_count w - 1)
      → Leaves n addr out
  listener-Leaves n addr s w (w', ok l) counted had kept same dropped =
      (kept l refl ∙ counted, subst (IsTuned addr) (sym (same l refl)) had)
  listener-Leaves n addr s w (w', err e) counted had kept same dropped =
      let closed = dropped e refl in omega arith

  from_std-Leaves :
      (n : ℕ) (addr : SocketAddr) (s : Socket) (out : World × Result IoError (Unit {0}))
      → Tunes (suc n) (IsTuned addr) s out
      → Leaves n addr (and_then (drop_failed api s out) λ w _. api.from_std s w)
  unfolding drop_failed
  from_std-Leaves n addr s (w, ok _) (counted, had) =
      listener-Leaves n addr s w (api.from_std s w) counted had (laws.hands_over s w)
        (laws.keeps_options s w) (laws.drops s w)
  from_std-Leaves n addr s (w, err e) counted = let closed = laws.closes s w in omega arith

  started-Leaves :
      (n : ℕ) (addr : SocketAddr) (out : World × Result IoError Socket)
      → ((s : Socket) → out.1 ≡ ok s → open_count out.0 ≡ suc n)
      → ((e : IoError) → out.1 ≡ err e → open_count out.0 ≡ n)
      → Leaves n addr (
          and_then out
            λ w s. and_then (drop_failed api s (tune api s addr w)) λ w' _. api.from_std s w')
  started-Leaves n addr (w, ok s) opens fails = from_std-Leaves n addr s (tune api s addr w) (
      subst (λ k. Tunes k (IsTuned addr) s (tune api s addr w)) (opens s refl)
        (tune-Tunes s addr w))
  started-Leaves n addr (w, err e) opens fails = fails e refl

  -- Where the calls do as documented: if a listener is given, then its socket listens with a backlog
  -- of 1024 at an address of the kind and ip asked for, and at the port asked for unless that is 0;
  -- it reuses address and port, has no delay and does not block; and one socket more is open than
  -- before. If any call fails, the last one included, as many sockets are open as before.
  pub create_tuned_tcp_listener-Leaves :
      (addr : SocketAddr) (w : World)
      → Leaves (open_count w) addr (create_tuned_tcp_listener api addr w)
  unfolding create_tuned_tcp_listener
  create_tuned_tcp_listener-Leaves addr w =
      started-Leaves (open_count w) addr (api.new_stream (domain_of addr) w)
        (laws.new_opens (domain_of addr) w) (laws.new_fails (domain_of addr) w)
