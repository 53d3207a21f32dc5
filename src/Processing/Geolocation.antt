-- ===== src/Processing/Geolocation.antt =====
-- pipelines/processing/operators/geolocation.py: the location of a subnet, with the cache of
-- functools.lru_cache. A text is its code points. The GeoIP reader is a parameter.
pub mod Cached
pub mod Host
pub mod Served
use fraudstream.Prelude.{
  ℕ, zero, suc, ◌-◌, String, Bool, true, false, ◌&&◌, List, [], ◌∷◌, ◌++◌, Option, none, some, ◌==◌,
  ltb, length, take, if◌then◌else◌,
}

abbrev pub Text : Type 0
Text = List ℕ

pub record Geo : Type 0 where
  pub geo_country : Option String
  pub geo_city : Option String
  pub geo_network_class : Option String
  -- in hundredths
  pub geo_confidence : Option ℕ

-- reader.city(ip): the country and the city, none where it raises
abbrev pub Reader : Type 0
Reader = Text → Option (Option String × Option String)

abbrev pub same_text : Text → Text → Bool
same_text [] [] = true
same_text (c ∷ s) (d ∷ t) = (c == d) && same_text s t
same_text _ _ = false

-- s.split(c)
unfoldable pub split_on : ℕ → Text → List Text
split_on c [] = [] ∷ []
split_on c (d ∷ s) = elim (split_on c s) [
  | [] ↦ [] ∷ []
  | part ∷ parts ↦ if d == c then [] ∷ part ∷ parts else (d ∷ part) ∷ parts
]

-- c.join(parts)
unfoldable pub join : ℕ → List Text → Text
join c [] = []
join c (part ∷ []) = part
join c (part ∷ other ∷ parts) = part ++ c ∷ join c (other ∷ parts)

abbrev pub first : List Text → Text
first [] = []
first (part ∷ _) = part

-- `parts[-1] = "1"` if there are four parts and the last is "0"
unfoldable pub set_host : List Text → List Text
set_host (a ∷ b ∷ c ∷ d ∷ []) = a ∷ b ∷ c ∷ (if same_text d (b'0' ∷ []) then b'1' ∷ [] else d) ∷ []
set_host parts = parts

-- _subnet_to_ip
unfoldable pub subnet_to_ip : Text → Text
unfolding split_on join set_host
subnet_to_ip subnet = join b'.' (set_host (split_on b'.' (first (split_on b'/' subnet))))

abbrev pub no_geo : Geo
no_geo = record {
  geo_country = none;
  geo_city = none;
  geo_network_class = none;
  geo_confidence = none;
}

-- _do_lookup
unfoldable pub do_lookup : Option Reader → Text → Geo
unfolding subnet_to_ip
do_lookup none subnet = no_geo
do_lookup (some city) subnet = elim (city (subnet_to_ip subnet)) [
  | none ↦ no_geo
  | some (country, name) ↦ record {
    geo_country = country;
    geo_city = name;
    geo_network_class = some "RESIDENTIAL";
    geo_confidence = some 90;
  }
]

-- The results that are kept, the one that was used last first.
abbrev pub Cache : Type 0
Cache = List (Text × Geo)

abbrev pub maxsize : ℕ
maxsize = 10000

unfoldable pub find : Text → Cache → Option Geo
find s [] = none
find s ((t, g) ∷ cache) = if same_text t s then some g else find s cache

unfoldable pub without : Text → Cache → Cache
without s [] = []
without s ((t, g) ∷ cache) =
    let rest = without s cache in if same_text t s then rest else (t, g) ∷ rest

module _ (reader : Option Reader) where
  -- self._lookup: a hit moves to the front, a miss is computed and kept, and the one that was used
  -- longest ago makes room
  unfoldable pub lookup : Text → Cache → Geo × Cache
  unfolding do_lookup find without
  lookup subnet cache = elim (find subnet cache) [
    | some g ↦ (g, (subnet, g) ∷ without subnet cache)
    | none ↦ let g = do_lookup reader subnet in (g, (subnet, g) ∷ take (maxsize - 1) cache)
  ]

  -- The locations of a sequence of transactions.
  unfoldable pub lookup_all : List Text → Cache → List Geo × Cache
  unfolding lookup
  lookup_all [] cache = ([], cache)
  lookup_all (s ∷ subnets) cache =
      let (g, cache1) = lookup s cache in
      let (geos, cache2) = lookup_all subnets cache1 in (g ∷ geos, cache2)
