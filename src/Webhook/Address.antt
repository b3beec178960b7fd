-- ===== src/Webhook/Address.antt =====
-- internal/webhook/ssrf.go: which addresses a delivery may reach.
use flowx.Prelude.{
  ◌/◌, ◌%◌, String, Bool, false, ◌&&◌, ◌||◌, not, Option, none, some, List, [], ◌∷◌, eqb, ◌==◌,
  string_eq, if◌then◌else◌,
}
use flowx.Exec.{Result, ok, err, unsafe_webhook_url, call_failed, pure, raise, ◌>>◌}
use flowx.Webhook.{Ip, v4, v6, Hooking, next_of, rest_of}

-- The predicates of net.IP.
unfoldable pub is_loopback : Ip → Bool
is_loopback (v4 a b c d) = eqb a 127
is_loopback (v6 h l rest) = eqb h 0 && eqb l 0 && eqb rest 1

unfoldable pub is_link_local_unicast : Ip → Bool
is_link_local_unicast (v4 a b c d) = eqb a 169 && eqb b 254
is_link_local_unicast (v6 h l rest) = eqb h 254 && eqb (l / 64) 2

unfoldable pub is_link_local_multicast : Ip → Bool
is_link_local_multicast (v4 a b c d) = eqb a 224 && eqb b 0 && eqb c 0
is_link_local_multicast (v6 h l rest) = eqb h 255 && eqb (l % 16) 2

unfoldable pub is_interface_local_multicast : Ip → Bool
is_interface_local_multicast (v4 a b c d) = false
is_interface_local_multicast (v6 h l rest) = eqb h 255 && eqb (l % 16) 1

unfoldable pub is_multicast : Ip → Bool
is_multicast (v4 a b c d) = eqb (a / 16) 14
is_multicast (v6 h l rest) = eqb h 255

unfoldable pub is_unspecified : Ip → Bool
is_unspecified (v4 a b c d) = eqb a 0 && eqb b 0 && eqb c 0 && eqb d 0
is_unspecified (v6 h l rest) = eqb h 0 && eqb l 0 && eqb rest 0

unfoldable pub is_private : Ip → Bool
is_private (v4 a b c d) = eqb a 10 || (eqb a 172 && eqb (b / 16) 1) || (eqb a 192 && eqb b 168)
is_private (v6 h l rest) = eqb (h / 2) 126

-- `isBlockedIP`; `allowPrivateNetworks` is for tests only
unfoldable pub is_blocked_ip : Ip → Bool
unfolding is_loopback is_link_local_unicast is_link_local_multicast is_interface_local_multicast
    is_multicast is_unspecified is_private
is_blocked_ip ip =
    is_loopback ip
    || is_link_local_unicast ip
    || is_link_local_multicast ip
    || is_interface_local_multicast ip
    || is_multicast ip
    || is_unspecified ip
    || is_private ip

abbrev pub any_blocked : List Ip → Bool
any_blocked [] = false
any_blocked (ip ∷ ips) = is_blocked_ip ip || any_blocked ips

-- what `resolveAndValidateHost` makes of the resolver's answer
unfoldable pub validated : Option (List Ip) → Result Ip
validated none = err call_failed
validated (some []) = err unsafe_webhook_url
validated (some (ip ∷ ips)) = if any_blocked (ip ∷ ips) then err unsafe_webhook_url else ok ip

-- `resolveAndValidateHost`: the next answer of the resolver, whatever the host
unfoldable pub resolve_and_validate_host : Hooking Ip
unfolding validated
resolve_and_validate_host s =
    (validated (next_of none s.lookups), record s { lookups = rest_of s.lookups })

-- `validateWebhookURL`. `parse_url` stands for url.Parse: the scheme and the host name.
unfoldable pub validate_webhook_url :
    (String → Option (String × String)) → String → Hooking (Unit {0})
validate_webhook_url parse_url raw = elim (parse_url raw) [
  | none ↦ raise unsafe_webhook_url
  | some (scheme, host) ↦
      if not (scheme == "http" || scheme == "https")
      then raise unsafe_webhook_url
      else if host == ""
      then raise unsafe_webhook_url
      else (do resolve_and_validate_host; pure tt)
]
