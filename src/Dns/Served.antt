-- ===== src/Dns/Served.antt =====
-- Which names the configuration of internal/services/dns.go lets dnsmasq resolve.
use airgapp_rpi.Base.{
  ◌≡◌, refl, sym, true, false, List, [], ◌∷◌, ◌++◌, map, any, All, arith, Bool-cases, inl, inr, ◌⊎◌,
}
use airgapp_rpi.Base.Text.{Text, codes, str_eq, str_eq-eq, str_eq_refl, has_prefix}
use airgapp_rpi.Base.Lines.{any-append-left, any-append-right}
use airgapp_rpi.Floor.{is_protected_denied, spoof_conn_man_host}
use airgapp_rpi.Dns.{
  server_line, host_line, preamble, allow_heading, allow_lines, open_lines, config_lines,
}

-- The line lets one name and what is below it resolve, and that name may be: the captive check, or
-- a listed domain that the deny floor does not hold.
pub record IsServed (domains : List Text) (l : Text) : Type 0 where
  pub domain : Text
  pub upstream : Text
  pub line_is : l ≡ server_line domain upstream
  pub may_be :
      (domain ≡ spoof_conn_man_host)
      ⊎ ((any (str_eq domain) domains ≡ true) × (is_protected_denied domain ≡ false))

abbrev pub IsFine : List Text → Text → Type 0
IsFine domains l = (has_prefix l (codes "server=") ≡ false) ⊎ IsServed domains l

module _ (all_domains : List Text) where
  IsFine-append :
      (xs ys : List Text)
      → All (IsFine all_domains) xs
      → All (IsFine all_domains) ys
      → All (IsFine all_domains) (xs ++ ys)
  IsFine-append [] ys h k = k
  IsFine-append (x ∷ xs) ys (f, h) k = (f, IsFine-append xs ys h k)

  IsFine-servers :
      (ups : List Text) (d : Text)
      → (d ≡ spoof_conn_man_host)
        ⊎ ((any (str_eq d) all_domains ≡ true) × (is_protected_denied d ≡ false))
      → All (IsFine all_domains) (map (server_line d) ups)
  IsFine-servers [] d h = tt
  IsFine-servers (up ∷ ups) d h = (
    inr (record { domain = d; upstream = up; line_is = refl; may_be = h }),
    IsFine-servers ups d h,
  )

  IsFine-allow_lines :
      (ups domains : List Text)
      → All (λ d. any (str_eq d) all_domains ≡ true) domains
      → All (IsFine all_domains) (allow_lines ups domains)
  IsFine-allow_lines ups [] h = tt
  IsFine-allow_lines ups (d ∷ domains) (m, h) = elim (Bool-cases (is_protected_denied d)) [
    | inl e ↦ rw e (IsFine-allow_lines ups domains h)
    | inr e ↦ rw e (
        IsFine-append (map (server_line d) ups) (allow_lines ups domains)
          (IsFine-servers ups d (inr (m, e))) (IsFine-allow_lines ups domains h))
  ]

  IsFine-hosts : (macs : List Text) → All (IsFine all_domains) (map host_line macs)
  unfolding has_prefix
  IsFine-hosts [] = tt
  IsFine-hosts (mac ∷ macs) = (inl refl, IsFine-hosts macs)

  IsFine-open_lines : (ups macs : List Text) → All (IsFine all_domains) (open_lines ups macs)
  unfolding has_prefix
  IsFine-open_lines ups [] = tt
  IsFine-open_lines ups (mac ∷ macs) = (
    inl refl,
    (inl refl, (inl refl, IsFine-append (map host_line macs) _ (IsFine-hosts macs) (inl refl, tt))),
  )

  IsFine-preamble : All (IsFine all_domains) preamble
  unfolding has_prefix
  IsFine-preamble =
      (inl refl, (inl refl, (inl refl, (inl refl, (inl refl, (inl refl, (inl refl, tt)))))))

any-weaken :
    (d e : Text) (domains : List Text)
    → any (str_eq d) domains ≡ true
    → any (str_eq d) (e ∷ domains) ≡ true
any-weaken d e domains h = ground arith

listed-weaken :
    (e : Text) (domains ds : List Text)
    → All (λ d. any (str_eq d) domains ≡ true) ds
    → All (λ d. any (str_eq d) (e ∷ domains) ≡ true) ds
listed-weaken e domains [] h = tt
listed-weaken e domains (d ∷ ds) (m, h) = (any-weaken d e domains m, listed-weaken e domains ds h)

listed_self : (domains : List Text) → All (λ d. any (str_eq d) domains ≡ true) domains
listed_self [] = tt
listed_self (d ∷ domains) =
    (ground (arith, str_eq_refl d), listed-weaken d domains domains (listed_self domains))

-- For every list of upstreams, domains and open devices: a line of the configuration that starts
-- with `server=` names a domain, and that is the host of the captive check, or one of the list
-- that the deny floor does not hold.
pub config_lines-IsServed :
    (ups domains macs : List Text) → All (IsFine domains) (config_lines ups domains macs)
unfolding config_lines has_prefix
config_lines-IsServed ups domains macs =
    IsFine-append domains preamble _ (IsFine-preamble domains) (
      IsFine-append domains (map (server_line spoof_conn_man_host) ups) _
        (IsFine-servers domains ups spoof_conn_man_host (inl refl))
        (
          inl refl,
          (
            inl refl,
            IsFine-append domains (allow_lines ups domains) (open_lines ups macs)
                (IsFine-allow_lines domains ups domains (listed_self domains))
                (IsFine-open_lines domains ups macs),
          ),
        ))

any-server_line :
    (ups : List Text) (d up : Text)
    → any (str_eq up) ups ≡ true
    → any (str_eq (server_line d up)) (map (server_line d) ups) ≡ true
any-server_line [] d up h = absurd cc
any-server_line (u ∷ ups) d up h = elim (Bool-cases (str_eq up u)) [
  | inl e ↦ rw (str_eq-eq up u e, str_eq_refl (server_line d u)) refl
  | inr e ↦
      let later = any-server_line ups d up (ground arith) in
      any-append-right (str_eq (server_line d up)) (server_line d u ∷ []) (map (server_line d) ups)
        later
]

any-allow_lines :
    (ups domains : List Text) (d up : Text)
    → any (str_eq d) domains ≡ true
    → is_protected_denied d ≡ false
    → any (str_eq up) ups ≡ true
    → any (str_eq (server_line d up)) (allow_lines ups domains) ≡ true
any-allow_lines ups [] d up h n u = absurd cc
any-allow_lines ups (e ∷ domains) d up h n u = elim (Bool-cases (str_eq d e)) [
  | inl q ↦
      let same = str_eq-eq d e q in
      rw (sym same, n)
        (any-append-left (str_eq (server_line d up)) (map (server_line d) ups)
          (allow_lines ups domains) (any-server_line ups d up u))
  | inr q ↦
      let later = any-allow_lines ups domains d up (ground arith) n u in
      elim (Bool-cases (is_protected_denied e)) [
        | inl r ↦ rw r later
        | inr r ↦ rw r (
            any-append-right (str_eq (server_line d up)) (map (server_line e) ups)
              (allow_lines ups domains) later)
      ]
]

-- Every listed domain that the deny floor does not hold has its line for every upstream.
pub config_lines-resolves :
    (ups domains macs : List Text) (d up : Text)
    → any (str_eq d) domains ≡ true
    → is_protected_denied d ≡ false
    → any (str_eq up) ups ≡ true
    → any (str_eq (server_line d up)) (config_lines ups domains macs) ≡ true
unfolding config_lines
config_lines-resolves ups domains macs d up h n u =
    let mine = str_eq (server_line d up) in
    let allowed =
      any-append-left mine (allow_lines ups domains) (open_lines ups macs)
        (any-allow_lines ups domains d up h n u) in
    any-append-right mine preamble _ (
      any-append-right mine (map (server_line spoof_conn_man_host) ups) _ (
        any-append-right mine ([] ∷ allow_heading ∷ [])
          (allow_lines ups domains ++ open_lines ups macs) allowed))
