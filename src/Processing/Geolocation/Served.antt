-- ===== src/Processing/Geolocation/Served.antt =====
-- The locations that transactions get, through the cache and the choice of the host
-- (pipelines/processing/operators/geolocation.py).
use fraudstream.Prelude.{
  ◌≤◌, ◌≡◌, refl, String, List, [], ◌∷◌, Option, none, some, arith, length, map, if◌then◌else◌,
}
use fraudstream.Processing.Geolocation.{
  Text, Geo, Reader, same_text, do_lookup, lookup_all, maxsize,
}
use fraudstream.Processing.Geolocation.Cached.{lookup_all-eq-do_lookup}
use fraudstream.Processing.Geolocation.Host.{dotted, IsPart, subnet_to_ip-dotted}

-- An IPv4 address by the texts of its parts.
pub record Network : Type 0 where
  pub part1 : Text
  pub part2 : Text
  pub part3 : Text
  pub part4 : Text

abbrev pub subnet_of : Network → Text
subnet_of n = dotted n.part1 n.part2 n.part3 n.part4

-- a.b.c.1 stands for the network a.b.c.0.
abbrev pub host_of : Network → Text
host_of n =
    dotted n.part1 n.part2 n.part3 (if same_text n.part4 (b'0' ∷ []) then b'1' ∷ [] else n.part4)

abbrev pub located : Option (Option String × Option String) → Geo
located none = record {
  geo_country = none;
  geo_city = none;
  geo_network_class = none;
  geo_confidence = none;
}
located (some (country, city)) = record {
  geo_country = country;
  geo_city = city;
  geo_network_class = some "RESIDENTIAL";
  geo_confidence = some 90;
}

-- No part holds a dot or a slash.
abbrev pub AreParts : List Network → Type 0
AreParts [] = Unit {0}
AreParts (n ∷ networks) =
    (IsPart n.part1 × IsPart n.part2 × IsPart n.part3 × IsPart n.part4) × AreParts networks

module _ (city : Reader) where
  do_lookup-located :
      (n : Network)
      → IsPart n.part1
      → IsPart n.part2
      → IsPart n.part3
      → IsPart n.part4
      → do_lookup (some city) (subnet_of n) ≡ located (city (host_of n))
  unfolding do_lookup
  do_lookup-located n a b c d =
      ground (arith, subnet_to_ip-dotted n.part1 n.part2 n.part3 n.part4 [] a b c d)

  map-do_lookup :
      (networks : List Network)
      → AreParts networks
      → map (do_lookup (some city)) (map subnet_of networks)
        ≡ map (λ n. located (city (host_of n))) networks
  map-do_lookup [] h = refl
  map-do_lookup (n ∷ networks) h =
      let (a, b, c, d) = h.0 in rw (do_lookup-located n a b c d, map-do_lookup networks h.1) refl

  -- For IPv4 subnets whose four parts hold no dot and no slash, from an empty cache, each transaction
  -- in turn gets the country and the city that the reader has for its network's host, which is a.b.c.1
  -- for a.b.c.0 and the address itself otherwise, with the class RESIDENTIAL and the confidence 0.9, or
  -- no location where the reader raises; and the cache never holds more than its maximum.
  pub lookup_all-located :
      (networks : List Network)
      → AreParts networks
      → ((lookup_all (some city) (map subnet_of networks) []).0
          ≡ map (λ n. located (city (host_of n))) networks)
        × (length (lookup_all (some city) (map subnet_of networks) []).1 ≤ maxsize)
  lookup_all-located networks h =
      let cached = lookup_all-eq-do_lookup (some city) (map subnet_of networks) in
      (rw (cached.0, map-do_lookup networks h) refl, cached.1)
