-- ===== src/Hello/Tests.antt =====
-- The parser on a concrete ClientHello.
use airgapp_rpi.Base.{ℕ, zero, suc, ◌≤◌, ◌<◌, ◌≡◌, refl, [], ◌∷◌, ◌++◌, arith, length, drop}
use airgapp_rpi.Base.Text.{Text, codes, to_lower}
use airgapp_rpi.Hello.{name, parse_sni, read_client_hello, read_hello}
use airgapp_rpi.Hello.Total.{parse_sni-ends, read_client_hello-replays}
use airgapp_rpi.Hello.RoundTrip.{ClientHello, IsWellFormed, encode_hello, parse_sni-encode_hello}

abbrev zeros : ℕ → Text
zeros zero = []
zeros (suc n) = 0 ∷ zeros n

abbrev hello : ClientHello
hello = record {
  version_random = zeros 34;
  session_id = 7 ∷ [];
  cipher_suites = 19 ∷ 1 ∷ [];
  compression = 0 ∷ [];
  before = record { kind = 10; content = 1 ∷ 2 ∷ [] } ∷ [];
  host = codes "Maps.Example.com";
  after = 0 ∷ 43 ∷ 0 ∷ [];
}

hello-IsWellFormed : IsWellFormed hello
hello-IsWellFormed = record { random_length = refl; others = (λ e. absurd (omega arith), tt) }

parse_sni-encode_hello_example :
    parse_sni (encode_hello hello) ≡ name (to_lower (codes "Maps.Example.com"))
parse_sni-encode_hello_example = parse_sni-encode_hello hello hello-IsWellFormed

parse_sni-ends_example : (host : Text) × (parse_sni (1 ∷ 0 ∷ 0 ∷ 2 ∷ 3 ∷ 3 ∷ []) ≡ name host)
parse_sni-ends_example = parse_sni-ends (1 ∷ 0 ∷ 0 ∷ 2 ∷ 3 ∷ 3 ∷ [])

abbrev record_bytes : Text
record_bytes = 22 ∷ 3 ∷ 1 ∷ 0 ∷ 2 ∷ 1 ∷ 0 ∷ []

reads-record :
    read_client_hello (record_bytes ++ (9 ∷ [])) ≡ read_hello record_bytes (9 ∷ []) (name [])
unfolding read_client_hello parse_sni
reads-record = refl

read_client_hello-replays_example :
    (record_bytes ++ (9 ∷ []) ≡ record_bytes ++ (9 ∷ []))
    × (5 < length record_bytes)
    × (length record_bytes ≤ 16389)
    × (name [] ≡ parse_sni (drop 5 record_bytes))
read_client_hello-replays_example =
    read_client_hello-replays (record_bytes ++ (9 ∷ [])) record_bytes (9 ∷ []) (name [])
      reads-record
