-- ===== src/Resolve.antt =====
-- hw1/resolve/main.cpp. What the resolver answers is a value; `inet_ntop` and `inet_ntoa` are
-- parameters. The output is its lines.
pub mod Printed
use cpp_network_homework.Prelude.{
  ℕ, Option, none, some, List, [], ◌∷◌, ◌++◌, ◌==◌, if◌then◌else◌, Bytes, codes,
}
use cpp_network_homework.Text.Decimal.{decimal}

-- The values of Linux.
abbrev pub af_inet : ℕ
af_inet = 2

abbrev pub af_inet6 : ℕ
af_inet6 = 10

-- An `addrinfo`: the name, `ai_family`, the family of `ai_addr`, and the bytes of its address.
pub record AddrInfo : Type 0 where
  pub canonname : Option Bytes
  pub family : ℕ
  pub addr_family : ℕ
  pub addr : Bytes

-- A `hostent`.
pub record HostEnt : Type 0 where
  pub name : Bytes
  pub aliases : List Bytes
  pub addrtype : ℕ
  pub addr_length : ℕ
  pub addr_list : List Bytes

-- `getaddrinfo` gives the text of its error, or its results.
pub data AddrInfos : Type 0 where
  gai_error : Bytes → AddrInfos
  addresses : List AddrInfo → AddrInfos

-- No host, with the code and the text of the last error, or a host.
pub data Host : Type 0 where
  null : ℕ → Bytes → Host
  found : HostEnt → Host

-- What a function has printed when it returns this, or when an assertion has failed.
pub data Returned : Type 0 where
  exit_success exit_failure : List Bytes → List Bytes → Returned
  aborted : List Bytes → Returned

name_of : Option Bytes → Bytes
name_of none = []
name_of (some name) = name

getting : Bytes → Bytes → List Bytes
getting name function =
    (codes "Getting name for \"" ++ (name ++ codes "\"..."))
    ∷ (codes "Using " ++ (function ++ codes "() function."))
    ∷ []

module _ (ntop : ℕ → Bytes → Bytes) where
  -- Behind the assertion: the family, and the address of the two that the program knows.
  pub address_lines : AddrInfo → List Bytes
  address_lines s =
      if af_inet == s.family
      then codes "Address type: AF_INET"
        ∷ codes "Address length: 4"
        ∷ (codes "IP Address: " ++ ntop af_inet s.addr)
        ∷ []
      else if af_inet6 == s.family
      then codes "Address type: AF_INET6"
        ∷ codes "Address length: 16"
        ∷ (codes "IP Address: " ++ ntop af_inet6 s.addr)
        ∷ []
      else (codes "Address type: " ++ decimal s.family) ∷ []

  canonical_line : AddrInfo → Bytes
  canonical_line s = codes "Canonical name: " ++ name_of s.canonname

  -- The loop over the results, with what has been printed so far; `assert` is on.
  pub address_loop : List AddrInfo → List Bytes → Returned
  address_loop [] out = exit_success (out ++ ([] ∷ [])) []
  address_loop (s ∷ infos) out =
      let more = address_loop infos (out ++ (canonical_line s ∷ (address_lines s ++ ([] ∷ [])))) in
      if s.family == s.addr_family then more else aborted (out ++ (canonical_line s ∷ []))

  pub print_ips_with_getaddrinfo : Bytes → AddrInfos → Returned
  print_ips_with_getaddrinfo name (gai_error text) =
      exit_failure (getting name (codes "getaddrinfo")) ((codes "getaddrinfo error: " ++ text) ∷ [])
  print_ips_with_getaddrinfo name (addresses infos) =
      address_loop infos (getting name (codes "getaddrinfo"))

alias_lines : List Bytes → List Bytes
alias_lines [] = []
alias_lines (a ∷ names) = (codes "# Alternate name: \"" ++ (a ++ codes "\"")) ∷ alias_lines names

module _ (ntoa : Bytes → Bytes) where
  ip_lines : List Bytes → List Bytes
  ip_lines [] = []
  ip_lines (a ∷ addrs) = (codes "IP Address: " ++ ntoa a) ∷ ip_lines addrs

  host_lines : HostEnt → List Bytes
  host_lines h =
      if af_inet == h.addrtype
      then codes "Address type: AF_INET"
        ∷ []
        ∷ (codes "Address length: " ++ decimal h.addr_length)
        ∷ ip_lines h.addr_list
      else if af_inet6 == h.addrtype
      then codes "Address type: AF_INET6" ∷ []
      else (codes "Address type: " ++ decimal h.addrtype) ∷ []

  pub print_ips_with_gethostbyname : Bytes → Host → Returned
  print_ips_with_gethostbyname name (null code text) =
      exit_failure (getting name (codes "gethostbyname")) (if code == 0 then [] else text ∷ [])
  print_ips_with_gethostbyname name (found h) =
      exit_success
        (getting name (codes "gethostbyname")
          ++ ((codes "Official name: " ++ h.name)
              ∷ (alias_lines h.aliases ++ (host_lines h ++ ([] ∷ [])))))
        []

pub output : Returned → List Bytes
output (exit_success out err) = out
output (exit_failure out err) = out
output (aborted out) = out

pub errors : Returned → List Bytes
errors (exit_success out err) = err
errors (exit_failure out err) = err
errors (aborted out) = []

-- `main` behind the first function, whose result, and that of the second, it does not look at.
behind_first : Returned → Returned → Returned
behind_first (aborted out) second = aborted out
behind_first (exit_success out err) second =
    exit_success (out ++ output second) (err ++ errors second)
behind_first (exit_failure out err) second =
    exit_success (out ++ output second) (err ++ errors second)

usage : Bytes → Returned
usage program = exit_failure ((codes "Usage: " ++ (program ++ codes " <hostname>")) ∷ []) []

module _ (ntop : ℕ → Bytes → Bytes) (ntoa : Bytes → Bytes) where
  -- A program is called with its own name at least.
  pub main : Bytes → List Bytes → AddrInfos → Host → Returned
  main program (name ∷ []) infos answer =
      behind_first (print_ips_with_getaddrinfo ntop name infos)
        (print_ips_with_gethostbyname ntoa name answer)
  main program _ infos answer = usage program
