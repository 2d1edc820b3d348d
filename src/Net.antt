-- ===== src/Net.antt =====
-- Where a request comes from: the tests of `r.RemoteAddr` in pkg/observability/health/health_endpoint.go,
-- pkg/observability/metrics/prometheus_endpoint.go and pkg/validation/validation_endpoint.go. What Go's
-- net package makes of an address is a parameter, which stands beside the address.
pub mod Clients
use caddy_fs_gcs.Base.{ℕ, String, List, Bool, false, Option, none, some}

pub record Remote : Type 0 where
  pub addr : String
  -- `net.SplitHostPort`, with none for its error
  pub split_host_port : String → Option (String × String)
  -- `net.ParseIP`, with none for nil; an IP address is its bytes
  pub parse_ip : String → Option (List ℕ)
  -- `IP.IsLoopback`
  pub is_loopback_ip : List ℕ → Bool

-- The host, or the whole address where it has no port.
unfoldable pub host : Remote → String
host r = elim (r.split_host_port r.addr) [ none ↦ r.addr | some (name, port) ↦ name ]

-- `ip != nil && ip.IsLoopback()`
unfoldable pub is_loopback : Remote → Bool
is_loopback r = elim (r.parse_ip (host r)) [ none ↦ false | some ip ↦ r.is_loopback_ip ip ]
