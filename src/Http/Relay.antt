-- ===== src/Http/Relay.antt =====
-- The relay is no open redirector.
use meta_mcp.Prelude.{
  ◌≡◌, eqb, refl, ap, sym, arith, has_prefix, Bool, true, false, String, none, some, decimal, inl,
  inr, ◌≤◌, if◌then◌else◌,
}
use meta_mcp.Config.{Config, Variables, load}
use meta_mcp.Config.Valid.{load-IsValid}
use meta_mcp.Exec.{ok}
use meta_mcp.Http.{Target, loopback_relay_handler, relay_handler, relay_path, ◌^^◌}

mounted_as :
    {A : Type 0} {x y : A} (off : Bool)
    → (if off then none else some x) ≡ some y
    → (off ≡ false) × (x ≡ y)
mounted_as true h = absurd (ground arith)
mounted_as false h = (refl, ground arith)

-- With a configuration that `load` returned, the relay is mounted only with a port of 1 to 65535, and
-- then it sends every browser to 127.0.0.1 on this port, at /callback over http, whatever the query.
pub relay_handler-loopback :
    (v : Variables) {c : Config} {relay : String → Target} (raw_query : String)
    → load v ≡ ok c
    → relay_handler c ≡ some relay
    → (1 ≤ c.relay_port)
      × (c.relay_port ≤ 65535)
      × (relay raw_query ≡ record {
        scheme = "http";
        host = "127.0.0.1:" ^^ decimal c.relay_port;
        path = "/callback";
        raw_query = raw_query;
      })
unfolding has_prefix relay_handler loopback_relay_handler relay_path
relay_handler-loopback v {c} {relay} raw_query loaded mounted =
    let (on, same) = mounted_as (eqb c.relay_port 0) mounted in
    elim (load-IsValid v loaded).relay [
      | inl zero_port ↦ absurd (ground arith)
      | inr (low, high) ↦ (low, high, ap (λ r. r raw_query) (sym same))
    ]
