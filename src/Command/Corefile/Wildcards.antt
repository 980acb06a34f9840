-- ===== src/Command/Corefile/Wildcards.antt =====
-- The bound of the generated Corefile, in the plugin's lookup: which names become wildcard names.
use rdns_server.Base.{
  ℕ, suc, ◌+◌, ◌-◌, ◌%◌, ◌<◌, ◌≡◌, ◌≢◌, ◌∙◌, refl, ap, true, false, not, ◌&&◌, ltb, ◌==◌, List, [],
  ◌∷◌, ◌++◌, Bytes, codes, length, drop, length-append, arith,
}
use rdns_server.Text.{split, join, trim_right_set, dot}
use rdns_server.Text.RoundTrip.{split-ne-nil, join-split, join-cons}
use rdns_server.Coredns.Dns.{Dns, type_txt}
use rdns_server.Coredns.Etcd.{Etcd, path_exist, bounded_name}
use rdns_server.Command.Corefile.{wildcard_bound}

drop-append : (xs ys : List Bytes) → drop (length xs) (xs ++ ys) ≡ ys
drop-append [] ys = refl
drop-append (x ∷ xs) ys = drop-append xs ys

-- A slug's name, in the domain without its dots at the end.
slug_name : (slug domain : Bytes) → join dot (slug ∷ split dot domain) ≡ slug ++ dot ∷ domain
slug_name slug domain =
    join-cons dot slug (split dot domain) (split-ne-nil dot domain)
    ∙ ap (λ s. slug ++ dot ∷ s) (join-split dot domain)

-- The comparisons for a name with this many labels, of which z are those of the domain.
counted :
    (z s w n : ℕ)
    → w ≡ z + 1
    → n ≡ suc s + suc z
    → n < 128
    → (ltb 0 w ≡ true)
      × (ltb (n % 256) 128 ≡ true)
      × (ltb w (n % 256) ≡ true)
      × (n % 256 - w ≡ suc s)
counted z s w n b m h = (ground arith, ground arith, ground arith, omega arith)

-- With the bound of the Corefile, a name that has one label or more before a slug's name, fewer than 128
-- labels in all, and no key in etcd is looked up as the wildcard below the slug's name, unless the
-- query is for TXT.
pub bounded_name-of_slug :
    (dns : Dns) (e : Etcd) (nm domain x slug : Bytes) (sub : List Bytes) (qtype : ℕ)
    → e.wildcard_bound ≡ wildcard_bound domain
    → dns.split_domain_name nm ≡ (x ∷ sub) ++ slug ∷ split dot (trim_right_set (dot ∷ []) domain)
    → length (dns.split_domain_name nm) < 128
    → qtype ≢ type_txt
    → path_exist dns e (dns.split_domain_name nm) ≡ false
    → bounded_name dns e nm qtype ≡ codes "*." ++ slug ++ dot ∷ trim_right_set (dot ∷ []) domain
unfolding bounded_name wildcard_bound
bounded_name-of_slug dns e nm domain x slug sub qtype bound labels few other none_there =
    rw (exceeds, dropped, labels, drop-append (x ∷ sub) (slug ∷ zone), slug_name slug trimmed) refl
  where
    trimmed : Bytes
    trimmed = trim_right_set (dot ∷ []) domain

    zone : List Bytes
    zone = split dot trimmed

    count : ℕ
    count = length (dns.split_domain_name nm) % 256

    many : length (dns.split_domain_name nm) ≡ suc (length sub) + suc (length zone)
    many = rw labels (length-append (x ∷ sub) (slug ∷ zone))

    not_txt : (qtype == type_txt) ≡ false
    not_txt = ground arith

    exceeds :
        (ltb 0 e.wildcard_bound
          && not (qtype == type_txt)
          && ltb count 128
          && ltb e.wildcard_bound count
          && not (path_exist dns e (dns.split_domain_name nm)))
        ≡ true
    exceeds =
        let (some_bound, short, longer, _) =
          counted (length zone) (length sub) e.wildcard_bound (length (dns.split_domain_name nm))
            bound many few in
        rw (some_bound, not_txt, short, longer, none_there) refl

    dropped : count - e.wildcard_bound ≡ length (x ∷ sub)
    dropped =
        (counted (length zone) (length sub) e.wildcard_bound (length (dns.split_domain_name nm))
          bound many few).3
