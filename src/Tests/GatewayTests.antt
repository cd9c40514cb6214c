-- ===== src/Tests/GatewayTests.antt =====
-- The doors at concrete inputs.
use rust_enterprise_query_en.Gateway.Http.Socket.{
  Sockets, SocketAddr, v4, create_tuned_tcp_listener, v6,
}
use rust_enterprise_query_en.Gateway.Http.Socket.Documented.{Options, SocketLaws, Gives}
use rust_enterprise_query_en.Gateway.Http.Socket.Laws.{Leaves, create_tuned_tcp_listener-Leaves}
use rust_enterprise_query_en.Common.{
  ℕ, ◌≤◌, false, List, [], ◌∷◌, none, Result, ok, ◌≡◌, ◌≢◌, refl, ◌↔◌, ◌⊎◌, All, suc, zero, some,
  ◌-◌, inl, inr,
}
use rust_enterprise_query_en.Common.Text.{
  Text, codes, trim, trim_start, trim_end, cons_trimmed, is_whitespace, byte_len, len_utf8,
  is_empty,
}
use rust_enterprise_query_en.Gateway.Requests.{validate_query_str}
use rust_enterprise_query_en.Gateway.Requests.Laws.{validate_query_str_iff}
use rust_enterprise_query_en.Gateway.Wire.Laws.{IsRow}
use rust_enterprise_query_en.Gateway.Cli.{CliError, resolve_lines, resolve_query_inputs}
use rust_enterprise_query_en.Engines.Sql.{strip_cr}

abbrev name : Text
name = codes "Query"

validate_query_str_iff_example : (validate_query_str (codes " a ") name 4 ≡ ok (codes "a")) ↔ (
    (codes "a" ≡ trim (codes " a "))
    × (trim (codes " a ") ≢ [])
    × (byte_len (trim (codes " a ")) ≤ 4))
validate_query_str_iff_example = validate_query_str_iff (codes " a ") name 4 (codes "a")

accepted : validate_query_str (codes " a ") name 4 ≡ ok (codes "a")
unfolding validate_query_str trim trim_start trim_end cons_trimmed is_whitespace byte_len len_utf8
    is_empty
accepted = refl

abbrev lines : List Text
lines = codes "{1}" ∷ codes "{2}" ∷ []

lines-IsRow : All IsRow lines
unfolding strip_cr is_empty
lines-IsRow =
    ((refl, (refl, (refl, (refl, tt))), refl), ((refl, (refl, (refl, (refl, tt))), refl), tt))

abbrev counted : Result ℕ ℕ
counted = ok 12

abbrev typed : List (Result ℕ Text)
typed = ok (codes " ") ∷ ok (codes " q") ∷ []

abbrev found : List (Result (CliError ℕ) Text)
found = ok (codes "q") ∷ []

resolved : resolve_query_inputs none false typed ≡ ok found
unfolding resolve_query_inputs resolve_lines trim trim_start trim_end cons_trimmed is_whitespace
    is_empty
resolved = refl

-- Port 0 asks for any free port; this system gives 49152.
abbrev port_for : ℕ → ℕ
port_for zero = 49152
port_for (suc port) = suc port

abbrev address_for : SocketAddr → SocketAddr
address_for (v4 ip port) = v4 ip (port_for port)
address_for (v6 ip port) = v6 ip (port_for port)

port_for-given : (port : ℕ) → (port ≡ 0) ⊎ (port_for port ≡ port)
port_for-given zero = inl refl
port_for-given (suc port) = inr refl

address_for-Gives : (addr : SocketAddr) → Gives addr (address_for addr)
address_for-Gives (v4 ip port) = (refl, port_for-given port)
address_for-Gives (v6 ip port) = (refl, port_for-given port)

-- A system with one socket: how many are open, and its options.
abbrev sockets : Sockets
sockets = record {
  World = ℕ × Options;
  Socket = Unit;
  Listener = Unit;
  IoError = ℕ;
  new_stream = λ domain w. ((suc w.0, w.1), ok tt);
  set_reuse_address = λ s b w. ((w.0, record w.1 { reuse_address = b }), ok tt);
  set_reuse_port = λ s b w. ((w.0, record w.1 { reuse_port = b }), ok tt);
  set_nodelay = λ s b w. ((w.0, record w.1 { nodelay = b }), ok tt);
  set_recv_buffer_size = λ s n w. (w, ok tt);
  set_send_buffer_size = λ s n w. (w, ok tt);
  set_nonblocking = λ s b w. ((w.0, record w.1 { nonblocking = b }), ok tt);
  bind = λ s addr w. ((w.0, record w.1 { bound = some (address_for addr) }), ok tt);
  listen = λ s n w. ((w.0, record w.1 { backlog = some n }), ok tt);
  from_std = λ s w. (w, ok tt);
  close = λ s w. (w.0 - 1, w.1);
}

abbrev socket_laws : SocketLaws sockets
socket_laws = record {
  options = λ w s. w.1;
  open_count = λ w. w.0;
  socket_of = λ l. l;
  new_opens = λ domain w s h. refl;
  new_fails = λ domain w e h. cc;
  reuses_address = λ s b w. (refl, λ h. refl);
  reuses_port = λ s b w. (refl, λ h. refl);
  has_nodelay = λ s b w. (refl, λ h. refl);
  receives = λ s n w. (refl, λ h. refl);
  sends = λ s n w. (refl, λ h. refl);
  is_nonblocking = λ s b w. (refl, λ h. refl);
  given = λ w s. address_for;
  gives = λ w s. address_for-Gives;
  bind_counts = λ s addr w. refl;
  binds = λ s addr w h. refl;
  listens = λ s n w. (refl, λ h. refl);
  hands_over = λ s w l h. refl;
  drops = λ s w e h. cc;
  keeps_options = λ s w l h. refl;
  closes = λ s w. refl;
}

-- 127.0.0.1:0, as the test of the repository asks for it.
abbrev address : SocketAddr
address = v4 2130706433 0

abbrev untuned : Options
untuned = record {
  reuse_address = false;
  reuse_port = false;
  nodelay = false;
  nonblocking = false;
  bound = none;
  backlog = none;
}

create_tuned_tcp_listener-Leaves_example :
    Leaves sockets socket_laws 0 address (create_tuned_tcp_listener sockets address (0, untuned))
create_tuned_tcp_listener-Leaves_example =
    create_tuned_tcp_listener-Leaves sockets socket_laws address (0, untuned)
