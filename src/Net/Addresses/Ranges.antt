-- ===== src/Net/Addresses/Ranges.antt =====
-- Private, local and reserved addresses, told by how they begin. They are written in lower case.
use tore_legal_data_engine.Prelude.{String, List, [], ◌∷◌}

-- "This network", 10/8, loopback, link-local, 192.168/16, benchmarking, 172.16/12 and 100.64/10.
abbrev pub ipv4_ranges : List String
ipv4_ranges =
    "0." ∷ "10." ∷ "127." ∷ "169.254." ∷ "192.168." ∷ "198.18." ∷ "198.19." ∷ "172.16." ∷ "172.17."
    ∷ "172.18." ∷ "172.19." ∷ "172.20." ∷ "172.21." ∷ "172.22." ∷ "172.23." ∷ "172.24." ∷ "172.25."
    ∷ "172.26." ∷ "172.27." ∷ "172.28." ∷ "172.29." ∷ "172.30." ∷ "172.31." ∷ "100.64." ∷ "100.65."
    ∷ "100.66." ∷ "100.67." ∷ "100.68." ∷ "100.69." ∷ "100.70." ∷ "100.71." ∷ "100.72." ∷ "100.73."
    ∷ "100.74." ∷ "100.75." ∷ "100.76." ∷ "100.77." ∷ "100.78." ∷ "100.79." ∷ "100.80." ∷ "100.81."
    ∷ "100.82." ∷ "100.83." ∷ "100.84." ∷ "100.85." ∷ "100.86." ∷ "100.87." ∷ "100.88." ∷ "100.89."
    ∷ "100.90." ∷ "100.91." ∷ "100.92." ∷ "100.93." ∷ "100.94." ∷ "100.95." ∷ "100.96." ∷ "100.97."
    ∷ "100.98." ∷ "100.99." ∷ "100.100." ∷ "100.101." ∷ "100.102." ∷ "100.103." ∷ "100.104."
    ∷ "100.105." ∷ "100.106." ∷ "100.107." ∷ "100.108." ∷ "100.109." ∷ "100.110." ∷ "100.111."
    ∷ "100.112." ∷ "100.113." ∷ "100.114." ∷ "100.115." ∷ "100.116." ∷ "100.117." ∷ "100.118."
    ∷ "100.119." ∷ "100.120." ∷ "100.121." ∷ "100.122." ∷ "100.123." ∷ "100.124." ∷ "100.125."
    ∷ "100.126." ∷ "100.127." ∷ []

-- Unique local, link-local and multicast addresses.
abbrev pub ipv6_ranges : List String
ipv6_ranges = "fc" ∷ "fd" ∷ "fe80" ∷ "ff" ∷ []
