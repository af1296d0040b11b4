-- ===== src/Hello.antt =====
-- internal/services/sniproxy.go, `readClientHello` and `parseSNI`: the host name in the first TLS
-- record of a connection. A byte slice is a list of bytes; a loop has as much fuel as it has bytes.
pub mod Total
pub mod RoundTrip
mod Tests
use airgapp_rpi.Base.{
  ℕ, zero, suc, ◌+◌, ◌*◌, Bool, true, false, ◌||◌, Option, none, some, List, [], ◌∷◌, ◌++◌, length,
  take, drop, ltb, ◌==◌, ◌>>=◌, if◌then◌else◌,
}
use airgapp_rpi.Base.Text.{Text, to_lower}

-- `binary.BigEndian.Uint16`
abbrev pub be16 : ℕ → ℕ → ℕ
be16 x y = x * 256 + y

-- What a loop ends with. The empty name is the source's "no host".
pub data Parsed : Type 0 where
  exhausted : Parsed
  name : Text → Parsed

-- The loop over the names of a server_name extension.
unfoldable pub name_loop : ℕ → Text → Parsed
name_loop zero (t ∷ x ∷ y ∷ list) = exhausted
name_loop (suc fuel) (t ∷ x ∷ y ∷ list) =
    let rest = name_loop fuel (drop (be16 x y) list) in
    if ltb (length list) (be16 x y)
    then name []
    else if t == 0
    then name (to_lower (take (be16 x y) list))
    else rest
name_loop fuel _ = name []

unfoldable pub server_name : Text → Parsed
unfolding name_loop
server_name (x ∷ y ∷ list) = let names = take (be16 x y) list in name_loop (length names) names
server_name _ = name []

-- The loop over the extensions.
unfoldable pub extension_loop : ℕ → Text → Parsed
unfolding server_name
extension_loop zero (t ∷ u ∷ x ∷ y ∷ b) = exhausted
extension_loop (suc fuel) (t ∷ u ∷ x ∷ y ∷ b) =
    let rest = extension_loop fuel (drop (be16 x y) b) in
    if ltb (length b) (be16 x y)
    then name []
    else if be16 t u == 0
    then server_name (take (be16 x y) b)
    else rest
extension_loop fuel _ = name []

-- A vector with one byte, or two, of length: what stands behind it.
abbrev pub skip_vector8 : Text → Option Text
skip_vector8 [] = none
skip_vector8 (n ∷ b) = if ltb (length b) n then none else some (drop n b)

abbrev pub skip_vector16 : Text → Option Text
skip_vector16 (x ∷ y ∷ b) = if ltb (length b) (be16 x y) then none else some (drop (be16 x y) b)
skip_vector16 _ = none

-- `version(2) + random(32)`
abbrev pub skip_random : Text → Option Text
skip_random b = if ltb (length b) 34 then none else some (drop 34 b)

abbrev pub limit_extensions : Text → Option Text
limit_extensions (x ∷ y ∷ b) = some (take (be16 x y) b)
limit_extensions _ = none

-- The extensions of the handshake message, or the early return.
unfoldable pub extensions : Text → Option Text
extensions b = do
  session_id ← skip_random b
  cipher_suites ← skip_vector8 session_id
  compression ← skip_vector16 cipher_suites
  rest ← skip_vector8 compression
  limit_extensions rest

abbrev pub name_in : Option Text → Parsed
name_in none = name []
name_in (some b) = extension_loop (length b) b

unfoldable pub parse_sni : Text → Parsed
unfolding extensions
parse_sni (t ∷ x ∷ y ∷ z ∷ b) =
    if t == 1 then name_in (extensions (take (x * 65536 + y * 256 + z) b)) else name []
parse_sni _ = name []

-- `readClientHello` on the bytes that the connection delivers: the record to replay, what is left
-- on the connection, and the host.
pub data HelloError : Type 0 where
  short not_handshake bad_length : HelloError

pub data ReadHello : Type 0 where
  failed : HelloError → ReadHello
  read_hello : Text → Text → Parsed → ReadHello

unfoldable pub read_client_hello : Text → ReadHello
unfolding parse_sni
read_client_hello (t ∷ v ∷ w ∷ x ∷ y ∷ rest) =
    let n = be16 x y in
    if t == 22
    then (if (n == 0) || ltb 16384 n
        then failed bad_length
        else if ltb (length rest) n
        then failed short
        else read_hello (t ∷ v ∷ w ∷ x ∷ y ∷ take n rest) (drop n rest) (parse_sni (take n rest)))
    else failed not_handshake
read_client_hello _ = failed short
