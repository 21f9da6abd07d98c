-- ===== src/Proto/Endpoint.antt =====
-- newt_proto.c, `handle_wg_connect`: splitting `host:port` and `[IPv6]:port`, and the port.
use newt_esp.Base.{
  ℕ, ◌≤◌, ◌<◌, ◌≡◌, ◌≢◌, refl, ◌||◌, ◌&&◌, [], ◌∷◌, ◌++◌, Option, none, some, arith, ltb, ◌==◌,
  if◌then◌else◌, length, Bytes, split_first, split_last, decimal, strtol, ℤ, pos, negsuc, Lacks,
  split_first-append, split_last-append, strtol-decimal, decimal-Lacks, lt→ltb, ◌>>=◌, ◌>>◌, guard,
  append-nil, read_digits,
}

-- `NEWT_PROTO_ENDPOINT_MAX`
abbrev pub endpoint_max : ℕ
endpoint_max = 128

-- Behind `[`: the host runs to the first `]`, which a `:` must follow.
bracketed : Option (Bytes × Bytes) → Option (Bytes × Bytes)
bracketed none = none
bracketed (some (host, [])) = none
bracketed (some (host, c ∷ port)) = if c == b':' then some (host, port) else none

-- The host and the text of the port. A plain host runs to the last `:`.
unfoldable pub parse_endpoint : Bytes → Option (Bytes × Bytes)
unfolding bracketed
parse_endpoint [] = split_last b':' []
parse_endpoint (c ∷ cs) =
    if c == b'[' then bracketed (split_first b']' cs) else split_last b':' (c ∷ cs)

port_in_range : ℤ → Option ℕ
port_in_range (pos n) = if n == 0 || ltb 65535 n then none else some n
port_in_range (negsuc n) = none

-- `strtol`, and the test `port <= 0 || port > 65535`.
unfoldable pub parse_port : Bytes → Option ℕ
unfolding port_in_range
parse_port s = port_in_range (strtol s)

-- The host with the port, after the length test on the host.
unfoldable pub host_port : Bytes → Option (Bytes × ℕ)
unfolding parse_endpoint parse_port
host_port s = do
  (host, port_str) ← parse_endpoint s
  guard (ltb 0 (length host) && ltb (length host) endpoint_max)
  port ← parse_port port_str
  some (host, port)

-- Whatever the text, an accepted host fits its buffer with the terminator and is not empty, and an
-- accepted port is a port number.
pub host_port_bounds :
    (s host : Bytes) (port : ℕ)
    → host_port s ≡ some (host, port)
    → (0 < length host) × (length host < endpoint_max) × (0 < port) × (port ≤ 65535)
unfolding host_port
host_port_bounds s host port h = ground arith

pub host_port_parts :
    (s : Bytes) (hp : Bytes × ℕ)
    → host_port s ≡ some hp
    → (0 < length hp.0) × (length hp.0 < endpoint_max) × (0 < hp.1) × (hp.1 ≤ 65535)
host_port_parts s hp h = host_port_bounds s hp.0 hp.1 h

parse_port-decimal : (port : ℕ) → 0 < port → port ≤ 65535 → parse_port (decimal port) ≡ some port
unfolding parse_port read_digits
parse_port-decimal port lo hi =
    let e : strtol (decimal port) ≡ pos port =
      rw (← append-nil (decimal port)) (strtol-decimal port [] (omega arith) refl) in
    rw e (ground arith)

-- `host:port`, and `[host]:port`, as a server writes them.
pub data Form : Type 0 where
  plain bracket : Form

abbrev pub print_endpoint : Form → Bytes → ℕ → Bytes
print_endpoint Form.plain host port = host ++ b':' ∷ decimal port
print_endpoint Form.bracket host port = b'[' ∷ (host ++ b']' ∷ b':' ∷ decimal port)

-- Which hosts each form can carry: a plain one does not start with `[`, a bracketed one has no `]`.
abbrev pub Carries : Form → Bytes → Type 0
Carries Form.plain [] = Unit
Carries Form.plain (c ∷ cs) = c ≢ b'['
Carries Form.bracket host = Lacks b']' host

parse_endpoint-print :
    (form : Form) (host : Bytes) (port : ℕ)
    → 0 < length host
    → Carries form host
    → parse_endpoint (print_endpoint form host port) ≡ some (host, decimal port)
unfolding parse_endpoint
parse_endpoint-print Form.plain [] port p h = absurd (omega arith)
parse_endpoint-print Form.plain (c ∷ cs) port p h =
    ground (arith, split_last-append b':' (c ∷ cs) (decimal port) (decimal-Lacks port b':' refl))
parse_endpoint-print Form.bracket host port p h =
    ground (arith, split_first-append b']' host (b':' ∷ decimal port) h)

-- Both forms of endpoint are read back as they were printed, for every port number but 0 and every
-- host that is not empty, fits the buffer and can stand in its form: a plain host does not begin with
-- `[`, but may hold colons, and a host in brackets has no `]`.
pub host_port-print :
    (form : Form) (host : Bytes) (port : ℕ)
    → 0 < length host
    → length host < endpoint_max
    → Carries form host
    → 0 < port
    → port ≤ 65535
    → host_port (print_endpoint form host port) ≡ some (host, port)
unfolding host_port
host_port-print form host port p l h lo hi = rw (
  parse_endpoint-print form host port p h,
  parse_port-decimal port lo hi,
  lt→ltb 0 _ p,
  lt→ltb (length host) endpoint_max l,
)
