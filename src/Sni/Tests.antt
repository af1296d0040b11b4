-- ===== src/Sni/Tests.antt =====
-- The decision on concrete connections.
use airgapp_rpi.Base.{ℕ, zero, suc, ◌≡◌, refl, true, List, [], ◌∷◌, length}
use airgapp_rpi.Base.Text.{Text, codes, str_eq, has_suffix, to_lower, to_upper, trim_space}
use airgapp_rpi.Floor.{clean, is_under, is_exempt, denied_by, ancestor_of, is_protected_denied}
use airgapp_rpi.Hello.{
  Parsed, read_client_hello, read_hello, parse_sni, extensions, extension_loop, server_name,
  name_loop,
}
use airgapp_rpi.Hello.RoundTrip.{encode_hello}
use airgapp_rpi.Sni.{
  Proxy, client_mac, policy_for, match_sni, sni_allowed, connect, handle, host_of,
}
use airgapp_rpi.Sni.Refused.{exempt_hosts, sni_allowed-below_exempt}
use airgapp_rpi.Base.{◌++◌, any, inl, inr, false}
use airgapp_rpi.Base.Text.{trim_left, is_space, lower_byte}
use airgapp_rpi.Sni.Decision.{dialled, IsAdmitted, IsGuarded, handle-IsAdmitted}

abbrev zeros : ℕ → Text
zeros zero = []
zeros (suc n) = 0 ∷ zeros n

abbrev proxy : Proxy
proxy = record {
  leases = (codes "aa", codes "10.0.0.2" ∷ []) ∷ [];
  arp = [];
  suffixes = codes "a.io" ∷ [];
  filtered = codes "AA" ∷ [];
}

abbrev hello : Text
hello = encode_hello (record {
  version_random = zeros 34;
  session_id = [];
  cipher_suites = [];
  compression = [];
  before = [];
  host = codes "x.a.io";
  after = [];
})

abbrev connection : Text
connection = 22 ∷ 3 ∷ 1 ∷ 0 ∷ length hello ∷ hello

abbrev no_more : List Text
no_more = []

goes_out :
    dialled (handle (λ h. true) (λ b. true) proxy (codes "10.0.0.2") connection)
    ≡ codes "x.a.io" ∷ []
unfolding handle connect policy_for client_mac sni_allowed match_sni is_protected_denied denied_by
    is_exempt is_under clean read_client_hello parse_sni extensions extension_loop server_name
    name_loop to_lower to_upper trim_space str_eq has_suffix
goes_out = refl

handle-IsAdmitted_example :
    IsAdmitted proxy (codes "10.0.0.2") (codes "x.a.io")
    × (no_more ≡ [])
    × ((raw : Text) × (rest : Text) × (sni : Parsed) × (read_client_hello connection
          ≡ read_hello raw rest sni)
        × (host_of sni ≡ codes "x.a.io"))
handle-IsAdmitted_example =
    handle-IsAdmitted (λ h. true) (λ b. true) proxy (codes "10.0.0.2") connection (codes "x.a.io")
      [] goes_out

abbrev assistant : Text
assistant = codes "assistant-api.prd.euw1.vn.cloud.tesla.com"

guarded : IsGuarded (codes "daws.tesla.services")
unfolding is_exempt denied_by ancestor_of is_under str_eq has_suffix
guarded = record { is_exempt = refl; not_denied = refl; not_ancestor = refl }

exempt : is_exempt assistant ≡ true
unfolding is_exempt str_eq
exempt = refl

matched : match_sni (codes "x." ++ assistant) (codes "daws.tesla.services" ∷ assistant ∷ []) ≡ true
unfolding match_sni clean is_under str_eq has_suffix trim_space trim_left is_space to_lower
    lower_byte
matched = refl

refused :
    sni_allowed (codes "x." ++ assistant) (codes "daws.tesla.services" ∷ assistant ∷ []) ≡ false
unfolding sni_allowed is_protected_denied denied_by is_exempt clean is_under str_eq has_suffix
    trim_space trim_left is_space to_lower lower_byte
refused = refl

sni_allowed-below_exempt_example :
    any (is_under (clean (codes "x." ++ assistant))) exempt_hosts ≡ true
sni_allowed-below_exempt_example =
    sni_allowed-below_exempt (codes "x." ++ assistant)
      (codes "daws.tesla.services" ∷ assistant ∷ []) (inr guarded, (inl exempt, tt)) matched refused

below : is_under (codes "a.daws.tesla.services") (codes "daws.tesla.services") ≡ true
unfolding is_under str_eq has_suffix
below = refl
