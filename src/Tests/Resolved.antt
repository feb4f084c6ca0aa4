-- ===== src/Tests/Resolved.antt =====
-- hw1/resolve at concrete inputs.
use cpp_network_homework.Prelude.{◌≡◌, refl, none, some, List, [], ◌∷◌, ◌++◌, Bytes, codes}
use cpp_network_homework.Resolve.{
  AddrInfo, HostEnt, AddrInfos, addresses, found, exit_success, main,
}
use cpp_network_homework.Resolve.Printed.{
  ip_only, Agrees, ips_found, AllAgree, ips_of_host, main-ips,
}

abbrev local_info : AddrInfo
local_info = record {
  canonname = some (codes "localhost");
  family = 2;
  addr_family = 2;
  addr = 127 ∷ 0 ∷ 0 ∷ 1 ∷ [];
}

abbrev packet_info : AddrInfo
packet_info = record { canonname = none; family = 17; addr_family = 17; addr = [] }

abbrev local_host : HostEnt
local_host = record {
  name = codes "localhost";
  aliases = codes "me" ∷ [];
  addrtype = 2;
  addr_length = 4;
  addr_list = (127 ∷ 0 ∷ 0 ∷ 1 ∷ []) ∷ [];
}

abbrev local_infos : AddrInfos
local_infos = addresses (local_info ∷ packet_info ∷ [])

all-Agrees : AllAgree (λ f a. a) local_infos
unfolding AllAgree Agrees
all-Agrees = (refl, (refl, tt))

main-ips_example :
    (out : List Bytes) × (err : List Bytes) × (main
        (λ f a. a)
        (λ a. a)
        (codes "resolve")
        (codes "localhost" ∷ [])
        local_infos
        (found local_host)
      ≡ exit_success out err)
    × (ip_only out ≡ ips_found (λ f a. a) local_infos ++ ips_of_host (λ a. a) (found local_host))
main-ips_example =
    main-ips (λ f a. a) (λ a. a) (codes "resolve") (codes "localhost") local_infos
      (found local_host) all-Agrees
