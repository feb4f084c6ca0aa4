-- ===== src/Resolve/Printed.antt =====
-- Which addresses the program prints.
use cpp_network_homework.Prelude.{
  ℕ, ◌≡◌, refl, ap, ap₂, ◌∙◌, ◌⊎◌, inl, inr, true, List, [], ◌∷◌, ◌++◌, map, append-nil,
  append_assoc, ◌==◌, if◌then◌else◌, Bool-cases, All, Bytes, codes,
}
use cpp_network_homework.FileServer.Request.{starts_with}
use cpp_network_homework.Resolve.{
  af_inet, af_inet6, AddrInfo, HostEnt, AddrInfos, gai_error, addresses, Host, null, found,
  Returned, exit_success, exit_failure, getting, address_lines, canonical_line, address_loop,
  print_ips_with_getaddrinfo, alias_lines, ip_lines, host_lines, print_ips_with_gethostbyname,
  output, errors, behind_first, main,
}

-- The lines that name an address.
unfoldable pub ip_only : List Bytes → List Bytes
ip_only [] = []
ip_only (line ∷ lines) =
    let more = ip_only lines in
    if starts_with line (codes "IP Address: ") then line ∷ more else more

abbrev pub ip_line : Bytes → Bytes
ip_line text = codes "IP Address: " ++ text

ip_only-append : (a b : List Bytes) → ip_only (a ++ b) ≡ ip_only a ++ ip_only b
unfolding ip_only
ip_only-append [] b = refl
ip_only-append (line ∷ a) b =
    let more = ip_only-append a b in
    elim (Bool-cases (starts_with line (codes "IP Address: "))) [
      | inl e ↦ rw e (ap (◌∷◌ line) more)
      | inr e ↦ rw e more
    ]

ip_only_blank : ip_only ([] ∷ []) ≡ []
unfolding ip_only starts_with
ip_only_blank = refl

getting_no_ips : (name function : Bytes) → ip_only (getting name function) ≡ []
unfolding ip_only starts_with getting
getting_no_ips name function = refl

-- The family of a result and that of its address are the same, as the code asserts.
unfoldable pub Agrees : AddrInfo → Type 0
Agrees s = (s.family == s.addr_family) ≡ true

module _ (ntop : ℕ → Bytes → Bytes) where
  -- The addresses of the two families that the program knows.
  unfoldable pub ips_of : List AddrInfo → List Bytes
  ips_of [] = []
  ips_of (s ∷ infos) =
      let more = ips_of infos in
      if af_inet == s.family
      then ip_line (ntop af_inet s.addr) ∷ more
      else if af_inet6 == s.family
      then ip_line (ntop af_inet6 s.addr) ∷ more
      else more

  unfoldable pub ips_found : AddrInfos → List Bytes
  ips_found (gai_error text) = []
  ips_found (addresses infos) = ips_of infos

  unfoldable pub AllAgree : AddrInfos → Type 0
  AllAgree (gai_error text) = Unit
  AllAgree (addresses infos) = All Agrees infos

  ip_only_info :
      (s : AddrInfo) (infos : List AddrInfo)
      → ip_only (canonical_line ntop s ∷ (address_lines ntop s ++ ([] ∷ []))) ++ ips_of infos
        ≡ ips_of (s ∷ infos)
  unfolding ip_only canonical_line address_lines ips_of starts_with
  ip_only_info s infos = elim (Bool-cases (af_inet == s.family)) [
    | inl e ↦ rw e refl
    | inr e ↦ elim (Bool-cases (af_inet6 == s.family)) [
      | inl f ↦ rw (e, f) refl
      | inr f ↦ rw (e, f) refl
    ]
  ]

  address_loop-ips :
      (infos : List AddrInfo) (out : List Bytes)
      → All Agrees infos
      → (lines : List Bytes) × (address_loop ntop infos out ≡ exit_success lines [])
        × (ip_only lines ≡ ip_only out ++ ips_of infos)
  unfolding address_loop Agrees ips_of
  address_loop-ips [] out h = (
    out ++ ([] ∷ []),
    refl,
    ip_only-append out ([] ∷ []) ∙ ap (λ t. ip_only out ++ t) ip_only_blank,
  )
  address_loop-ips (s ∷ infos) out (h, hs) =
      let info = canonical_line ntop s ∷ (address_lines ntop s ++ ([] ∷ [])) in
      let (lines, e, ips) = address_loop-ips infos (out ++ info) hs in
      (
        lines,
        rw h e,
        ips
            ∙ (ap (λ t. t ++ ips_of infos) (ip_only-append out info)
                ∙ (append_assoc (ip_only out) (ip_only info) (ips_of infos)
                    ∙ ap (λ t. ip_only out ++ t) (ip_only_info s infos))),
      )

  getaddrinfo-ips :
      (name : Bytes) (infos : AddrInfos)
      → AllAgree infos
      → let first = print_ips_with_getaddrinfo ntop name infos in
        ((out : List Bytes) × (err : List Bytes) × ((first ≡ exit_success out err)
            ⊎ (first ≡ exit_failure out err))
          × (ip_only out ≡ ips_found infos))
  unfolding print_ips_with_getaddrinfo getting AllAgree ips_found
  getaddrinfo-ips name (gai_error text) h = (
    getting name (codes "getaddrinfo"),
    (codes "getaddrinfo error: " ++ text) ∷ [],
    inr refl,
    getting_no_ips name (codes "getaddrinfo"),
  )
  getaddrinfo-ips name (addresses infos) h =
      let (lines, e, ips) = address_loop-ips infos (getting name (codes "getaddrinfo")) h in
      (
        lines,
        [],
        inl e,
        ips ∙ ap (λ t. t ++ ips_of infos) (getting_no_ips name (codes "getaddrinfo")),
      )

official_no_ip :
    (name : Bytes) (lines : List Bytes)
    → ip_only ((codes "Official name: " ++ name) ∷ lines) ≡ ip_only lines
unfolding ip_only starts_with
official_no_ip name lines = refl

-- `main` goes on behind the first function, whether or not that has failed.
goes_on :
    (first second : Returned) (out err : List Bytes)
    → (first ≡ exit_success out err) ⊎ (first ≡ exit_failure out err)
    → behind_first first second ≡ exit_success (out ++ output second) (err ++ errors second)
unfolding behind_first
goes_on first second out err (inl e) = ap (λ r. behind_first r second) e
goes_on first second out err (inr e) = ap (λ r. behind_first r second) e

module _ (ntoa : Bytes → Bytes) where
  -- The addresses of a host, as far as the program prints them.
  unfoldable pub ips_of_host : Host → List Bytes
  ips_of_host (null code text) = []
  ips_of_host (found h) =
      if af_inet == h.addrtype then map (λ a. ip_line (ntoa a)) h.addr_list else []

  alias_no_ips : (names : List Bytes) → ip_only (alias_lines names) ≡ []
  unfolding ip_only starts_with alias_lines
  alias_no_ips [] = refl
  alias_no_ips (a ∷ names) = alias_no_ips names

  ip_lines-ips :
      (addrs : List Bytes) → ip_only (ip_lines ntoa addrs) ≡ map (λ a. ip_line (ntoa a)) addrs
  unfolding ip_only starts_with ip_lines
  ip_lines-ips [] = refl
  ip_lines-ips (a ∷ addrs) = ap (◌∷◌ (ip_line (ntoa a))) (ip_lines-ips addrs)

  host_lines-ips : (h : HostEnt) → ip_only (host_lines ntoa h) ≡ ips_of_host (found h)
  unfolding ip_only starts_with host_lines ips_of_host
  host_lines-ips h = elim (Bool-cases (af_inet == h.addrtype)) [
    | inl e ↦ rw e (ip_lines-ips h.addr_list)
    | inr e ↦ elim (Bool-cases (af_inet6 == h.addrtype)) [
      | inl f ↦ rw (e, f) refl
      | inr f ↦ rw (e, f) refl
    ]
  ]

  gethostbyname-ips :
      (name : Bytes) (answer : Host)
      → ip_only (output (print_ips_with_gethostbyname ntoa name answer)) ≡ ips_of_host answer
  unfolding print_ips_with_gethostbyname output ips_of_host
  gethostbyname-ips name (null code text) = getting_no_ips name (codes "gethostbyname")
  gethostbyname-ips name (found h) =
      let aliases = alias_lines h.aliases in
      ip_only-append (getting name (codes "gethostbyname")) _
      ∙ (ap₂ (λ s t. s ++ t) (getting_no_ips name (codes "gethostbyname"))
          (official_no_ip h.name (aliases ++ (host_lines ntoa h ++ ([] ∷ [])))
            ∙ (ip_only-append aliases _
                ∙ (ap₂ (λ s t. s ++ t) (alias_no_ips h.aliases)
                    (ip_only-append (host_lines ntoa h) ([] ∷ [])
                      ∙ (ap₂ (λ s t. s ++ t) (host_lines-ips h) ip_only_blank
                          ∙ append-nil (ips_of_host (found h))))))))

module _ (ntop : ℕ → Bytes → Bytes) (ntoa : Bytes → Bytes) where
  -- The program prints the addresses that the two functions of the resolver give, in their order:
  -- those of the families AF_INET and AF_INET6 for `getaddrinfo`, and those of AF_INET alone for
  -- `gethostbyname`. It reports success whatever the resolver answers, failures of both included.
  -- Each result has the family of its address, as the code asserts.
  pub main-ips :
      (program name : Bytes) (infos : AddrInfos) (answer : Host)
      → AllAgree ntop infos
      → (out : List Bytes) × (err : List Bytes) × (main ntop ntoa program (name ∷ []) infos answer
          ≡ exit_success out err)
        × (ip_only out ≡ ips_found ntop infos ++ ips_of_host ntoa answer)
  unfolding main
  main-ips program name infos answer h =
      let second = print_ips_with_gethostbyname ntoa name answer in
      let (out, err, ends, ips) = getaddrinfo-ips ntop name infos h in
      (
        out ++ output second,
        err ++ errors second,
        goes_on (print_ips_with_getaddrinfo ntop name infos) second out err ends,
        ip_only-append out (output second)
            ∙ ap₂ (λ s t. s ++ t) ips (gethostbyname-ips ntoa name answer),
      )
