-- ===== src/Route53/Slugs.antt =====
-- The name whose token counts: findSlugWithZone of backend/route53/route53.go and the one of
-- compareToken in service/token.go.
use rdns_server.Base.{
  suc, ◌+◌, ◌-◌, ◌≤◌, ◌≡◌, refl, ap, ◌∙◌, sym, true, List, [], ◌∷◌, ◌++◌, Bytes, length, leb, arith,
  All,
}
use rdns_server.Text.{split, split_after_n, cuts, dot}
use rdns_server.Text.RoundTrip.{Lacks, split-append}
use rdns_server.Etcdv3.Names.{sub_name}
use rdns_server.Service.{owner}
use rdns_server.Service.Access.{below, length-below, cuts-append, owner-below}
use rdns_server.Route53.Filters.{second_or, find_slug_with_zone}

labels-below :
    (ks : List Bytes) (slug zone : Bytes)
    → All (Lacks dot) ks
    → Lacks dot slug
    → length (split dot (below ks (sub_name slug zone))) ≡ length ks + 1 + length (split dot zone)
labels-below ks slug zone h hs =
    omega (arith, length-below ks (sub_name slug zone) h, ap length (split-append dot slug zone hs))

-- The name is cut once for each label before the slug.
find_slug_with_zone-cuts :
    (ks : List Bytes) (slug zone : Bytes)
    → All (Lacks dot) ks
    → Lacks dot slug
    → find_slug_with_zone zone (below ks (sub_name slug zone))
      ≡ second_or
          (below ks (sub_name slug zone))
          (cuts true dot (length ks) (below ks (sub_name slug zone)))
unfolding find_slug_with_zone split_after_n
find_slug_with_zone-cuts ks slug zone h hs =
    let name = below ks (sub_name slug zone) in
    let labels = labels-below ks slug zone h hs in
    let deep : leb (length (split dot zone)) (length (split dot name)) ≡ true =
      ground (arith, labels) in
    let cut : length (split dot name) - length (split dot zone) ≡ suc (length ks) =
      omega (arith, labels) in
    rw (deep, cut, find_slug_with_zone) refl

-- For a slug's name, and a name with one label before it, both take the slug's name. The label and the
-- slug hold no dot.
pub find_slug_with_zone-owner :
    (ks : List Bytes) (slug zone : Bytes)
    → length ks ≤ 1
    → All (Lacks dot) ks
    → Lacks dot slug
    → find_slug_with_zone zone (below ks (sub_name slug zone))
      ≡ owner zone (below ks (sub_name slug zone))
unfolding below cuts second_or
find_slug_with_zone-owner [] slug zone n h hs =
    find_slug_with_zone-cuts [] slug zone h hs ∙ sym (owner-below [] slug zone h hs)
find_slug_with_zone-owner (k ∷ []) slug zone n (hk, h) hs =
    find_slug_with_zone-cuts (k ∷ []) slug zone (hk, h) hs
    ∙ ap (second_or (sub_name k (sub_name slug zone))) (cuts-append 0 k (sub_name slug zone) hk)
    ∙ sym (owner-below (k ∷ []) slug zone (hk, h) hs)
find_slug_with_zone-owner (k ∷ j ∷ ks) slug zone n h hs = absurd (omega arith)

-- For a name with two labels or more before a slug's name, findSlugWithZone takes the second label and
-- its dot, where compareToken takes the slug's name. The labels and the slug hold no dot.
pub find_slug_with_zone-deep :
    (k j : Bytes) (ks : List Bytes) (slug zone : Bytes)
    → All (Lacks dot) (k ∷ j ∷ ks)
    → Lacks dot slug
    → (find_slug_with_zone zone (below (k ∷ j ∷ ks) (sub_name slug zone)) ≡ j ++ dot ∷ [])
      × (owner zone (below (k ∷ j ∷ ks) (sub_name slug zone)) ≡ sub_name slug zone)
unfolding below second_or
find_slug_with_zone-deep k j ks slug zone h hs =
    let rest = below ks (sub_name slug zone) in
    (
      find_slug_with_zone-cuts (k ∷ j ∷ ks) slug zone h hs
          ∙ ap (second_or (sub_name k (sub_name j rest)))
              (cuts-append (suc (length ks)) k (sub_name j rest) h.0)
          ∙ ap (second_or (sub_name k (sub_name j rest)))
              (ap (λ x. (k ++ dot ∷ []) ∷ x) (cuts-append (length ks) j rest h.1.0)),
      owner-below (k ∷ j ∷ ks) slug zone h hs,
    )
