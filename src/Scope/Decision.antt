-- ===== src/Scope/Decision.antt =====
-- What `validate_target_scope` (apps/api/kerislab/scope.py) decides, as one test of the target.
use Prim.Native.Nat.{◌^◌}
use kerislab.Scope.{
  in_network_of, validate_target_scope, check_excludes, blocked_hosts, in_network, blocked_ips,
  check_ip, host_from_url, host_of,
}
use kerislab.Exec.{
  Result, Env, IpAddress, ok, World, err, Exec, ◌>>◌, raise_if, scope_error, ◌>>=◌, asks, proceed,
  Error, returned, v4, v6,
}
use kerislab.Prelude.{
  String, Option, Bool, any, not, false, List, ◌==◌, true, some, ◌≡◌, ◌&&◌, ◌||◌, ◌∷◌, occurs_in,
  none, Bool-cases, inl, inr, [], refl, concat, Option-cases, arith, ◌∙◌, ltb, leb, ◌*◌, ◌+◌, eqb,
}
use kerislab.Models.Scanning.{Target}

-- An exclusion that is a part of the URL.
abbrev pub excludes_url : String → String → Bool
excludes_url url excluded = not (excluded == "") && occurs_in excluded url

-- The addresses of 0.0.0.0/8, 10.0.0.0/8, 127.0.0.0/8, 169.254.0.0/16, 172.16.0.0/12 and 192.168.0.0/16, and
-- ::1, fc00::/7 and fe80::/10, by their bounds.
abbrev is_reserved : IpAddress → Bool
is_reserved (v4 a) =
    ltb a (2 ^ 24)
    || leb (10 * 2 ^ 24) a && ltb a (11 * 2 ^ 24)
    || leb (127 * 2 ^ 24) a && ltb a (128 * 2 ^ 24)
    || leb (169 * 2 ^ 24 + 254 * 2 ^ 16) a && ltb a (169 * 2 ^ 24 + 255 * 2 ^ 16)
    || leb (172 * 2 ^ 24 + 16 * 2 ^ 16) a && ltb a (172 * 2 ^ 24 + 32 * 2 ^ 16)
    || leb (192 * 2 ^ 24 + 168 * 2 ^ 16) a && ltb a (192 * 2 ^ 24 + 169 * 2 ^ 16)
is_reserved (v6 a) =
    eqb a 1
    || leb (0xfc00 * 2 ^ 112) a && ltb a (0xfe00 * 2 ^ 112)
    || leb (0xfe80 * 2 ^ 112) a && ltb a (0xfec0 * 2 ^ 112)

blocked_ips_lem : (ip : IpAddress) → any (in_network ip) blocked_ips ≡ is_reserved ip
unfolding in_network in_network_of any
blocked_ips_lem (v4 a) = ground arith
blocked_ips_lem (v6 a) = ground arith

-- A host that names no machine of the platform's own network, at an address outside of it.
abbrev reaches_outside : Env → String → Option IpAddress → Bool
reaches_outside env host none =
    not ("localhost" == host) && not ("metadata.google.internal" == host)
reaches_outside env host (some ip) =
    not ("localhost" == host)
    && not ("metadata.google.internal" == host)
    && not (is_reserved ip)
    && not (env.is_private ip)

blocked_hosts_lem :
    (host : String)
    → any (λ blocked. blocked == host) blocked_hosts
      ≡ ("localhost" == host || "metadata.google.internal" == host)
unfolding any
blocked_hosts_lem host = ground arith

abbrev named_host : Env → Target → Option String → Bool
named_host env target none = false
named_host env target (some hostname) =
    not (hostname == "")
    && (target.allow_private_networks
        || reaches_outside env (env.lower hostname) (env.ip_address (env.lower hostname)))

-- A target is in scope if its URL is one of HTTP, names a host, which is an outside one unless the
-- target allows private networks, and has none of its exclusions as a part.
unfoldable pub in_scope : Env → Target → Bool
in_scope env target =
    let parsed = env.urlparse target.url in
    any (λ scheme. scheme == parsed.scheme) ("http" ∷ "https" ∷ [])
    && named_host env target parsed.hostname
    && not (any (excludes_url target.url) target.excludes)

check_excludes_lem :
    (url : String) (excludes : List String) (w : World)
    → (returned (check_excludes url excludes w).0 ≡ not (any (excludes_url url) excludes))
      × ((check_excludes url excludes w).1 ≡ w)
unfolding check_excludes any
check_excludes_lem url [] w = (refl, refl)
check_excludes_lem url (x ∷ xs) w = elim (Bool-cases (excludes_url url x)) [
  | inl e ↦ rw e (refl, refl)
  | inr n ↦ rw n (check_excludes_lem url xs w)
]

-- The part of the check behind the host.
check_host : Target → String → Exec Unit
unfolding check_ip check_excludes
check_host target host = do
  raise_if (any (λ blocked. blocked == host) blocked_hosts && not target.allow_private_networks)
      (scope_error (concat ("blocked local/control-plane host: " ∷ host ∷ [])))
  ip ← asks (λ env. env.ip_address host)
  check_ip target.allow_private_networks ip
  check_excludes target.url target.excludes

check_host_lem :
    (target : Target) (host : String) (w : World)
    → (returned (check_host target host w).0 ≡ (
        (target.allow_private_networks || reaches_outside w.env host (w.env.ip_address host))
        && not (any (excludes_url target.url) target.excludes)))
      × ((check_host target host w).1 ≡ w)
unfolding check_host check_ip
check_host_lem target host w = elim (Option-cases (w.env.ip_address host)) [
  | inl e ↦
      rw (blocked_hosts_lem host, e)
        (ground (arith, check_excludes_lem target.url target.excludes w))
  | inr (ip, e) ↦
      rw (blocked_hosts_lem host, e)
        (ground (arith, blocked_ips_lem ip, check_excludes_lem target.url target.excludes w))
]

by_hostname :
    (target : Target) (o : Option String) (w : World)
    → (returned (proceed (host_of o w) (check_host target)).0
        ≡ (named_host w.env target o && not (any (excludes_url target.url) target.excludes)))
      × ((proceed (host_of o w) (check_host target)).1 ≡ w)
unfolding host_of
by_hostname target none w = (refl, refl)
by_hostname target (some hostname) w = elim (Bool-cases (hostname == "")) [
  | inl e ↦ rw e (refl, refl)
  | inr n ↦ rw n (check_host_lem target (w.env.lower hostname) w)
]

pub validate_target_scope_lem :
    (target : Target) (w : World)
    → (returned (validate_target_scope target w).0 ≡ in_scope w.env target)
      × ((validate_target_scope target w).1 ≡ w)
unfolding validate_target_scope in_scope check_host host_from_url
validate_target_scope_lem target w =
    let parsed = w.env.urlparse target.url in
    elim (Bool-cases (any (λ scheme. scheme == parsed.scheme) ("http" ∷ "https" ∷ []))) [
      | inl e ↦ rw e (by_hostname target parsed.hostname w)
      | inr n ↦ rw n (refl, refl)
    ]

passed : (p : Result Unit × World) (w : World) → returned p.0 ≡ true → p.1 ≡ w → p ≡ (ok tt, w)
passed (ok _, v) w h e = rw e refl
passed (err _, v) w h e = cc

failed :
    (p : Result Unit × World) (w : World)
    → returned p.0 ≡ false
    → p.1 ≡ w
    → (e : Error) × (p ≡ (err e, w))
failed (ok _, v) w h e = cc
failed (err x, v) w h e = (x, rw e refl)

-- The same, as what the check returns.
pub validate_target_scope-in_scope :
    (target : Target) (w : World)
    → in_scope w.env target ≡ true
    → validate_target_scope target w ≡ (ok tt, w)
validate_target_scope-in_scope target w h =
    passed (validate_target_scope target w) w ((validate_target_scope_lem target w).0 ∙ h)
      (validate_target_scope_lem target w).1

pub validate_target_scope-refused :
    (target : Target) (w : World)
    → in_scope w.env target ≡ false
    → (e : Error) × (validate_target_scope target w ≡ (err e, w))
validate_target_scope-refused target w h =
    failed (validate_target_scope target w) w ((validate_target_scope_lem target w).0 ∙ h)
      (validate_target_scope_lem target w).1
