-- ===== src/Hello/Total.antt =====
-- The parser of internal/services/sniproxy.go ends on every input, and reads what it replays.
use airgapp_rpi.Base.{
  ℕ, zero, suc, ◌+◌, ◌*◌, ◌≤◌, ◌<◌, ◌≡◌, ◌≢◌, refl, ap, Option, none, some, [], ◌∷◌, ◌++◌, length,
  take, drop, length-drop, length-take, arith,
}
use airgapp_rpi.Base.Text.{Text}
use airgapp_rpi.Hello.{
  be16, Parsed, exhausted, name, name_loop, server_name, extension_loop, extensions, name_in,
  parse_sni, read_client_hello, read_hello,
}

name_loop-ends : (fuel : ℕ) (b : Text) → length b ≤ fuel → name_loop fuel b ≢ exhausted
unfolding name_loop
name_loop-ends zero [] l e = cc
name_loop-ends (suc fuel) [] l e = cc
name_loop-ends zero (t ∷ []) l e = cc
name_loop-ends (suc fuel) (t ∷ []) l e = cc
name_loop-ends zero (t ∷ x ∷ []) l e = cc
name_loop-ends (suc fuel) (t ∷ x ∷ []) l e = cc
name_loop-ends zero (t ∷ x ∷ y ∷ b) l e = absurd (omega (arith, l))
name_loop-ends (suc fuel) (t ∷ x ∷ y ∷ b) l e =
    ground (arith, name_loop-ends fuel (drop (be16 x y) b), length-drop (be16 x y) b)

server_name-ends : (b : Text) → server_name b ≢ exhausted
unfolding server_name
server_name-ends [] e = cc
server_name-ends (x ∷ []) e = cc
server_name-ends (x ∷ y ∷ list) e =
    name_loop-ends (length (take (be16 x y) list)) (take (be16 x y) list) (omega arith) e

extension_loop-ends : (fuel : ℕ) (b : Text) → length b ≤ fuel → extension_loop fuel b ≢ exhausted
unfolding extension_loop
extension_loop-ends zero [] l e = cc
extension_loop-ends (suc fuel) [] l e = cc
extension_loop-ends zero (t ∷ []) l e = cc
extension_loop-ends (suc fuel) (t ∷ []) l e = cc
extension_loop-ends zero (t ∷ u ∷ []) l e = cc
extension_loop-ends (suc fuel) (t ∷ u ∷ []) l e = cc
extension_loop-ends zero (t ∷ u ∷ x ∷ []) l e = cc
extension_loop-ends (suc fuel) (t ∷ u ∷ x ∷ []) l e = cc
extension_loop-ends zero (t ∷ u ∷ x ∷ y ∷ b) l e = absurd (omega (arith, l))
extension_loop-ends (suc fuel) (t ∷ u ∷ x ∷ y ∷ b) l e = ground (
  arith,
  extension_loop-ends fuel (drop (be16 x y) b),
  length-drop (be16 x y) b,
  server_name-ends (take (be16 x y) b),
)

name_in-ends : (o : Option Text) → name_in o ≢ exhausted
name_in-ends none e = cc
name_in-ends (some b) e = extension_loop-ends (length b) b (omega arith) e

not_exhausted : (p : Parsed) → p ≢ exhausted → (host : Text) × (p ≡ name host)
not_exhausted exhausted n = absurd (n refl)
not_exhausted (name host) n = (host, refl)

parse_sni-not_exhausted : (b : Text) → parse_sni b ≢ exhausted
unfolding parse_sni
parse_sni-not_exhausted [] e = cc
parse_sni-not_exhausted (t ∷ []) e = cc
parse_sni-not_exhausted (t ∷ x ∷ []) e = cc
parse_sni-not_exhausted (t ∷ x ∷ y ∷ []) e = cc
parse_sni-not_exhausted (t ∷ x ∷ y ∷ z ∷ b) e =
    ground (arith, name_in-ends (extensions (take (x * 65536 + y * 256 + z) b)))

-- The parser ends with a name, possibly the empty one, on every byte sequence: both loops come to
-- an end before their fuel does.
pub parse_sni-ends : (b : Text) → (host : Text) × (parse_sni b ≡ name host)
parse_sni-ends b = not_exhausted (parse_sni b) (parse_sni-not_exhausted b)

take-drop : (n : ℕ) (b : Text) → take n b ++ drop n b ≡ b
take-drop zero b = refl
take-drop (suc n) [] = refl
take-drop (suc n) (x ∷ b) = ap (◌∷◌ x) (take-drop n b)

-- Whenever a ClientHello is read: what will be replayed to the upstream, followed by what is left
-- on the connection, is what the client sent; it is one record of at most 16384 bytes behind its
-- header, and the host is the one parsed from that record.
pub read_client_hello-replays :
    (b raw rest : Text) (sni : Parsed)
    → read_client_hello b ≡ read_hello raw rest sni
    → (raw ++ rest ≡ b) × (5 < length raw) × (length raw ≤ 16389) × (sni ≡ parse_sni (drop 5 raw))
unfolding read_client_hello
read_client_hello-replays [] raw rest sni e = cc
read_client_hello-replays (t ∷ []) raw rest sni e = cc
read_client_hello-replays (t ∷ v ∷ []) raw rest sni e = cc
read_client_hello-replays (t ∷ v ∷ w ∷ []) raw rest sni e = cc
read_client_hello-replays (t ∷ v ∷ w ∷ x ∷ []) raw rest sni e = cc
read_client_hello-replays (t ∷ v ∷ w ∷ x ∷ y ∷ b) raw rest sni e =
    ground (arith, take-drop (be16 x y) b, length-take (be16 x y) b)
