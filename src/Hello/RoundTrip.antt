-- ===== src/Hello/RoundTrip.antt =====
-- The parser of internal/services/sniproxy.go against the layout of a ClientHello (RFC 8446, 4.1.2,
-- and RFC 6066, 3): it finds the host name that a client wrote.
use airgapp_rpi.Base.{
  ℕ, zero, suc, ◌+◌, ◌*◌, ◌/◌, ◌%◌, ◌≤◌, ◌<◌, ◌≡◌, ◌≢◌, refl, ap, ◌∙◌, false, some, List, [], ◌∷◌,
  ◌++◌, length, take, length-append, take-append_self, drop-append_self, append_assoc, ltb, arith,
  All,
}
use airgapp_rpi.Base.Text.{Text, to_lower}
use airgapp_rpi.Hello.{
  be16, name, name_loop, server_name, extension_loop, extensions, skip_random, skip_vector8,
  skip_vector16, limit_extensions, parse_sni,
}

abbrev pub u16 : ℕ → Text
u16 n = n / 256 ∷ n % 256 ∷ []

abbrev pub vector8 : Text → Text
vector8 v = length v ∷ v

abbrev pub vector16 : Text → Text
vector16 v = length v / 256 ∷ length v % 256 ∷ v

pub record Extension : Type 0 where
  pub kind : ℕ
  pub content : Text

abbrev pub encode_extension : Extension → Text
encode_extension e = e.kind / 256 ∷ e.kind % 256 ∷ vector16 e.content

abbrev pub encode_extensions : List Extension → Text
encode_extensions [] = []
encode_extensions (e ∷ es) = encode_extension e ++ encode_extensions es

-- A server_name extension with one entry of type host_name.
abbrev pub encode_name : Text → Text
encode_name host = encode_extension (record { kind = 0; content = vector16 (0 ∷ vector16 host) })

-- A ClientHello with the host behind the extensions `before`, and with any bytes after it.
pub record ClientHello : Type 0 where
  pub version_random : Text
  pub session_id : Text
  pub cipher_suites : Text
  pub compression : Text
  pub before : List Extension
  pub host : Text
  pub after : Text

abbrev pub hello_extensions : ClientHello → Text
hello_extensions h = encode_extensions h.before ++ (encode_name h.host ++ h.after)

abbrev pub hello_body : ClientHello → Text
hello_body h =
    h.version_random
    ++ (vector8 h.session_id
        ++ (vector16 h.cipher_suites ++ (vector8 h.compression ++ vector16 (hello_extensions h))))

-- The handshake header and the body.
abbrev pub encode_hello : ClientHello → Text
encode_hello h =
    let n = length (hello_body h) in 1 ∷ n / 65536 ∷ n / 256 % 256 ∷ n % 256 ∷ hello_body h

-- The fixed part has its length, and the host is in the first server_name extension. Nothing is
-- asked of the other lengths: where one does not fit in its field, the head of the field is no byte.
pub record IsWellFormed (h : ClientHello) : Type 0 where
  pub random_length : length h.version_random ≡ 34
  pub others : All (λ e. e.kind ≢ 0) h.before

be16-u16 : (n : ℕ) → be16 (n / 256) (n % 256) ≡ n
be16-u16 n = omega arith

take-all : (xs : Text) → take (length xs) xs ≡ xs
take-all [] = refl
take-all (x ∷ xs) = ap (◌∷◌ x) (take-all xs)

not-ltb : (xs ys : Text) → ltb (length (xs ++ ys)) (length xs) ≡ false
not-ltb xs ys = ground (arith, length-append xs ys)

name_loop-host :
    (fuel : ℕ) (host : Text) → name_loop (suc fuel) (0 ∷ vector16 host) ≡ name (to_lower host)
unfolding name_loop
name_loop-host fuel host = rw (be16-u16 (length host), take-all host) (ground arith)

server_name-vector : (names : Text) → server_name (vector16 names) ≡ name_loop (length names) names
unfolding server_name
server_name-vector names = rw (be16-u16 (length names), take-all names) refl

server_name-host : (host : Text) → server_name (vector16 (0 ∷ vector16 host)) ≡ name (to_lower host)
server_name-host host =
    server_name-vector (0 ∷ vector16 host) ∙ name_loop-host (suc (suc (length host))) host

skip-extension :
    (fuel : ℕ) (e : Extension) (rest : Text)
    → e.kind ≢ 0
    → extension_loop (suc fuel) (encode_extension e ++ rest) ≡ extension_loop fuel rest
unfolding extension_loop
skip-extension fuel e rest n =
    rw
      (
        be16-u16 (length e.content),
        be16-u16 e.kind,
        drop-append_self e.content rest,
        not-ltb e.content rest,
      )
      (ground arith)

loop-server_name :
    (fuel : ℕ) (content after : Text)
    → extension_loop (suc fuel) (encode_extension (record { kind = 0; content = content }) ++ after)
      ≡ server_name content
unfolding extension_loop
loop-server_name fuel content after =
    rw (be16-u16 (length content), take-append_self content after, not-ltb content after) refl

-- With more fuel than extensions before it, the loop comes to the name.
loop-name :
    (before : List Extension) (fuel : ℕ) (host after : Text)
    → length before < fuel
    → All (λ e. e.kind ≢ 0) before
    → extension_loop fuel (encode_extensions before ++ (encode_name host ++ after))
      ≡ name (to_lower host)
loop-name before zero host after l h = absurd (omega (arith, l))
loop-name [] (suc fuel) host after l h =
    loop-server_name fuel (vector16 (0 ∷ vector16 host)) after ∙ server_name-host host
loop-name (e ∷ before) (suc fuel) host after l (n, h) =
    ap (extension_loop (suc fuel))
      (append_assoc (encode_extension e) (encode_extensions before) (encode_name host ++ after))
    ∙ skip-extension fuel e (encode_extensions before ++ (encode_name host ++ after)) n
    ∙ loop-name before fuel host after (omega (arith, l)) h

extensions-fuel : (before : List Extension) → length before ≤ length (encode_extensions before)
extensions-fuel [] = omega arith
extensions-fuel (e ∷ before) =
    omega
      (arith, extensions-fuel before, length-append (encode_extension e) (encode_extensions before))

skip-random : (r rest : Text) → length r ≡ 34 → skip_random (r ++ rest) ≡ some rest
skip-random r rest e = rw (← e) (rw (not-ltb r rest, drop-append_self r rest) refl)

skip-vector8 : (v rest : Text) → skip_vector8 (vector8 v ++ rest) ≡ some rest
skip-vector8 v rest = rw (not-ltb v rest, drop-append_self v rest) refl

skip-vector16 : (v rest : Text) → skip_vector16 (vector16 v ++ rest) ≡ some rest
skip-vector16 v rest = rw (be16-u16 (length v), not-ltb v rest, drop-append_self v rest) refl

limit-vector16 : (v : Text) → limit_extensions (vector16 v) ≡ some v
limit-vector16 v = rw (be16-u16 (length v), take-all v) refl

extensions-body :
    (h : ClientHello) → IsWellFormed h → extensions (hello_body h) ≡ some (hello_extensions h)
unfolding extensions
extensions-body h w =
    let exts = vector16 (hello_extensions h) in
    let compressed = vector8 h.compression ++ exts in
    let ciphered = vector16 h.cipher_suites ++ compressed in
    rw
      (
        skip-random h.version_random (vector8 h.session_id ++ ciphered) w.random_length,
        skip-vector8 h.session_id ciphered,
        skip-vector16 h.cipher_suites compressed,
        skip-vector8 h.compression exts,
        limit-vector16 (hello_extensions h),
      )
      refl

be24 : (n : ℕ) → n / 65536 * 65536 + n / 256 % 256 * 256 + n % 256 ≡ n
be24 n = omega arith

-- The host that a client writes into its ClientHello is the host that the proxy decides on, in
-- lower case: whatever the session id, the cipher suites and the compression methods are, whichever
-- other extensions come first, and whatever bytes come after.
pub parse_sni-encode_hello :
    (h : ClientHello) → IsWellFormed h → parse_sni (encode_hello h) ≡ name (to_lower h.host)
unfolding parse_sni
parse_sni-encode_hello h w =
    rw (be24 (length (hello_body h)), take-all (hello_body h), extensions-body h w)
      (loop-name h.before (length (hello_extensions h)) h.host h.after
        (omega (
          arith,
          extensions-fuel h.before,
          length-append (encode_extensions h.before) (encode_name h.host ++ h.after),
        ))
        w.others)
