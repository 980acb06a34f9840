-- ===== src/Coredns/Zones.antt =====
-- `Zones` and `Name` of coredns/plugin/normalize.go.
use rdns_server.Base.{
  ◌≡◌, ◌≤◌, refl, Bool, true, false, ◌&&◌, ◌||◌, ◌⊎◌, inl, List, [], ◌∷◌, map, Bytes, length, same,
  ltb, if◌then◌else◌, arith,
}
use rdns_server.Text.{to_lower}
use rdns_server.Coredns.Dns.{Dns}

module _ (dns : Dns) where
  -- The loop of `Matches`, with the zone found so far.
  longest : Bytes → Bytes → List Bytes → Bytes
  longest qname zone [] = zone
  longest qname zone (z ∷ zs) =
      longest qname (if dns.is_sub_domain z qname && ltb (length zone) (length z) then z else zone)
        zs

  -- Zones.Matches; the empty string is "not found".
  unfoldable pub matches : List Bytes → Bytes → Bytes
  unfolding longest
  matches zs qname = longest qname [] zs

  -- Name.Normalize and Zones.Normalize
  unfoldable pub normalize : Bytes → Bytes
  normalize n = to_lower (dns.fqdn n)

  unfoldable pub normalize_all : List Bytes → List Bytes
  unfolding normalize
  normalize_all = map normalize

  -- Name.Matches(child)
  unfoldable pub name_matches : Bytes → Bytes → Bool
  name_matches n child = same n child || dns.is_sub_domain n child

  -- The zone is one of the list.
  abbrev pub OneOf : Bytes → List Bytes → Type 0
  OneOf z [] = ⊥
  OneOf z (y ∷ ys) = (z ≡ y) ⊎ OneOf z ys

  -- No zone of the list that holds the name is longer.
  abbrev pub Longest : Bytes → Bytes → List Bytes → Type 0
  Longest qname z [] = Unit
  Longest qname z (y ∷ ys) =
      ((dns.is_sub_domain y qname && ltb (length z) (length y)) ≡ false) × Longest qname z ys

  longest-le : (qname z : Bytes) (zs : List Bytes) → length z ≤ length (longest qname z zs)
  unfolding longest
  longest-le qname z [] = omega arith
  longest-le qname z (y ∷ ys) = ground (arith, longest-le qname z ys, longest-le qname y ys)

  longest-Longest : (qname z : Bytes) (zs : List Bytes) → Longest qname (longest qname z zs) zs
  unfolding longest
  longest-Longest qname z [] = tt
  longest-Longest qname z (y ∷ ys) = ground (
    arith,
    longest-Longest qname z ys,
    longest-Longest qname y ys,
    longest-le qname z ys,
    longest-le qname y ys,
  )

  longest-OneOf :
      (qname z : Bytes) (zs : List Bytes)
      → (longest qname z zs ≡ z)
        ⊎ (OneOf (longest qname z zs) zs × (dns.is_sub_domain (longest qname z zs) qname ≡ true))
  unfolding longest
  longest-OneOf qname z [] = inl refl
  longest-OneOf qname z (y ∷ ys) =
      ground (arith, longest-OneOf qname z ys, longest-OneOf qname y ys)

  -- The match is the empty string, or one of the zones, and the name is in it. No zone that
  -- holds the name is longer than the match.
  pub matches_lem :
      (zs : List Bytes) (qname : Bytes)
      → ((matches zs qname ≡ [])
          ⊎ (OneOf (matches zs qname) zs × (dns.is_sub_domain (matches zs qname) qname ≡ true)))
        × Longest qname (matches zs qname) zs
  unfolding matches
  matches_lem zs qname = (longest-OneOf qname [] zs, longest-Longest qname [] zs)
