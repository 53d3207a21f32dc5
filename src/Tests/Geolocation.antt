-- ===== src/Tests/Geolocation.antt =====
-- Lookups of two subnets with a reader that knows one of them.
use fraudstream.Prelude.{
  ℕ, ◌≤◌, ◌≡◌, refl, List, arith, [], ◌∷◌, some, none, map, length, if◌then◌else◌,
}
use fraudstream.Processing.Geolocation.{Text, Reader, same_text, lookup_all, maxsize}
use fraudstream.Processing.Geolocation.Served.{
  Network, subnet_of, host_of, located, lookup_all-located,
}
use fraudstream.Processing.Geolocation.Host.{dotted}

abbrev one_digit : ℕ → Text
one_digit d = d ∷ []

abbrev subnet : ℕ → Text
subnet d = dotted (one_digit b'9') (one_digit b'8') (one_digit b'7') (one_digit d)

abbrev reader : Reader
reader ip = if same_text ip (subnet b'1') then some (some "PT", none) else none

abbrev network : ℕ → Network
network d = record {
  part1 = one_digit b'9';
  part2 = one_digit b'8';
  part3 = one_digit b'7';
  part4 = one_digit d;
}

abbrev networks : List Network
networks = network b'0' ∷ network b'3' ∷ network b'0' ∷ []

lookup_all-located_example :
    ((lookup_all (some reader) (map subnet_of networks) []).0
      ≡ map (λ n. located (reader (host_of n))) networks)
    × (length (lookup_all (some reader) (map subnet_of networks) []).1 ≤ maxsize)
lookup_all-located_example = lookup_all-located reader networks (ground arith)

located_run :
    map (λ n. (located (reader (host_of n))).geo_country) networks
    ≡ some "PT" ∷ none ∷ some "PT" ∷ []
located_run = refl
