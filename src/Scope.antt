-- ===== src/Scope.antt =====
-- apps/api/kerislab/scope.py: which targets may be scanned. `urlparse`, `ipaddress.ip_address`,
-- `is_private` and `str.lower` are the environment's; that an address lies in a network, which
-- `ipaddress` decides by its leading bits, is written out.
pub mod Decision
use kerislab.Prelude.{
  ℕ, ◌+◌, ◌*◌, String, Option, none, some, Bool, false, ◌&&◌, ◌||◌, not, List, [], ◌∷◌, ◌==◌,
  concat, occurs_in, any, eqb,
}
use Prim.Native.Nat.{◌/◌, ◌^◌, ◌-◌}
use kerislab.Models.Scanning.{Target}
use kerislab.Exec.{Exec, IpAddress, v4, v6, scope_error, pure, raise, raise_if, asks, ◌>>=◌, ◌>>◌}

-- `ipaddress.ip_network`: a base address and the length of the prefix.
pub record Network : Type 0 where
  pub base : IpAddress
  pub prefix : ℕ

-- The same version, and the same leading bits.
in_network_of : IpAddress → IpAddress → ℕ → Bool
in_network_of (v4 a) (v4 b) prefix = eqb (a / 2 ^ (32 - prefix)) (b / 2 ^ (32 - prefix))
in_network_of (v6 a) (v6 b) prefix = eqb (a / 2 ^ (128 - prefix)) (b / 2 ^ (128 - prefix))
in_network_of _ _ prefix = false

-- `ip in network`
unfoldable pub in_network : IpAddress → Network → Bool
unfolding in_network_of
in_network ip network = in_network_of ip network.base network.prefix

abbrev pub blocked_hosts : List String
blocked_hosts = "localhost" ∷ "metadata.google.internal" ∷ []

abbrev network : IpAddress → ℕ → Network
network base prefix = record { base = base; prefix = prefix }

-- 0.0.0.0/8, 10.0.0.0/8, 127.0.0.0/8, 169.254.0.0/16, 172.16.0.0/12, 192.168.0.0/16, ::1/128,
-- fc00::/7 and fe80::/10
abbrev pub blocked_ips : List Network
blocked_ips =
    network (v4 0) 8
    ∷ network (v4 (10 * 2 ^ 24)) 8
    ∷ network (v4 (127 * 2 ^ 24)) 8
    ∷ network (v4 (169 * 2 ^ 24 + 254 * 2 ^ 16)) 16
    ∷ network (v4 (172 * 2 ^ 24 + 16 * 2 ^ 16)) 12
    ∷ network (v4 (192 * 2 ^ 24 + 168 * 2 ^ 16)) 16
    ∷ network (v6 1) 128
    ∷ network (v6 (0xfc00 * 2 ^ 112)) 7
    ∷ network (v6 (0xfe80 * 2 ^ 112)) 10
    ∷ []

-- `if not parsed.hostname`: both None and the empty text
unfoldable pub host_of : Option String → Exec String
host_of none = raise (scope_error "target URL must include a hostname")
host_of (some hostname) = do
  raise_if (hostname == "") (scope_error "target URL must include a hostname")
  asks (λ env. env.lower hostname)

unfoldable pub host_from_url : String → Exec String
unfolding host_of
host_from_url url = do
  parsed ← asks (λ env. env.urlparse url)
  raise_if (not (any (λ scheme. scheme == parsed.scheme) ("http" ∷ "https" ∷ [])))
      (scope_error "target URL must use http or https")
  host_of parsed.hostname

-- the test of the addresses; an address object is never false
unfoldable pub check_ip : Bool → Option IpAddress → Exec Unit
check_ip allow_private_networks none = pure tt
check_ip allow_private_networks (some ip) = do
  private ← asks (λ env. env.is_private ip)
  text ← asks (λ env. env.show_ip ip)
  raise_if (not allow_private_networks && (any (in_network ip) blocked_ips || private))
      (scope_error (concat ("blocked private or unsafe target IP: " ∷ text ∷ [])))

-- the loop over `target.excludes`
unfoldable pub check_excludes : String → List String → Exec Unit
check_excludes url [] = pure tt
check_excludes url (excluded ∷ rest) = do
  raise_if (not (excluded == "") && occurs_in excluded url)
      (scope_error (concat ("target URL matches excluded scope: " ∷ excluded ∷ [])))
  check_excludes url rest

unfoldable pub validate_target_scope : Target → Exec Unit
unfolding host_from_url check_ip check_excludes
validate_target_scope target = do
  host ← host_from_url target.url
  raise_if (any (λ blocked. blocked == host) blocked_hosts && not target.allow_private_networks)
      (scope_error (concat ("blocked local/control-plane host: " ∷ host ∷ [])))
  ip ← asks (λ env. env.ip_address host)
  check_ip target.allow_private_networks ip
  check_excludes target.url target.excludes
