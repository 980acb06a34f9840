-- ===== src/Command/Corefile/Reads.antt =====
-- The block of the generated Corefile, read by the plugin's setup.
use rdns_server.Base.{
  ℕ, suc, ◌≤◌, ◌<◌, ◌-◌, ◌^◌, ◌≡◌, ◌∙◌, refl, ap, true, List, [], ◌∷◌, ◌++◌, map, none, some, Bytes,
  codes, ok, arith,
}
use rdns_server.Base.Int.{pos}
use rdns_server.Text.{split, join}
use rdns_server.Text.RoundTrip.{split-ne-nil}
use rdns_server.Text.Numbers.{parse_int, parse_int-itoa}
use rdns_server.Coredns.Setup.{Library, Config, Etcd, etcd_parse, initial, new_etcd_client, etcd_of}
use rdns_server.Coredns.Setup.Lines.{
  Reading, blank, indent, is_plain, all_plain, all_ordinary, is_plain-itoa, Becomes, Becomes-path,
  Becomes-endpoint, Becomes-upstream, Becomes-wildcardbound, Becomes-end, etcd_parse-of_lines,
}
use rdns_server.Command.Environment.{Environment, getenv}
use rdns_server.Command.Corefile.{core_file, CoreFile, block_lines, wildcard_bound}

module _ (lib : Library) (r : Reading lib) where
  line_words :
      (p w : Bytes) (ws : List Bytes)
      → all_plain (p ∷ w ∷ ws) ≡ true
      → r.words (indent ++ p ++ blank ∷ join blank (w ∷ ws)) ≡ p ∷ w ∷ ws
  unfolding join
  line_words p w ws h = r.words-join (p ∷ w ∷ ws) h

  abbrev block_words : CoreFile → Bytes → List Bytes → List (List Bytes)
  block_words f e es =
      (codes "path" ∷ f.etcd_prefix_path ∷ [])
      ∷ (codes "endpoint" ∷ e ∷ es)
      ∷ (codes "upstream" ∷ codes "8.8.8.8:53" ∷ codes "8.8.4.4:53" ∷ [])
      ∷ (codes "wildcardbound" ∷ f.wild_card_bound ∷ [])
      ∷ []

  -- The words of the four lines.
  words-block_lines :
      (f : CoreFile) (e : Bytes) (es : List Bytes)
      → is_plain f.etcd_prefix_path ≡ true
      → all_plain (e ∷ es) ≡ true
      → is_plain f.wild_card_bound ≡ true
      → f.etcd_endpoints ≡ join blank (e ∷ es)
      → map r.words (block_lines f) ≡ block_words f e es
  unfolding block_lines all_plain is_plain all_ordinary join
  words-block_lines f e es hp he hb j =
      rw
        (
          j,
          line_words (codes "path") f.etcd_prefix_path [] (rw hp refl),
          line_words (codes "endpoint") e es he,
          line_words (codes "upstream") (codes "8.8.8.8:53") (codes "8.8.4.4:53" ∷ []) refl,
          line_words (codes "wildcardbound") f.wild_card_bound [] (rw hb refl),
        )
        refl

  -- What the block makes of a fresh configuration.
  abbrev configured : CoreFile → ℕ → Bytes → List Bytes → Config lib
  configured f n e es = record (initial lib (lib.normalize f.domain ∷ [])) {
    path_prefix = f.etcd_prefix_path;
    endpoints = e ∷ es;
    upstream = some lib.new_upstream;
    wildcard_bound = n;
  }

  block_words-Becomes :
      (fuel n : ℕ) (f : CoreFile) (e : Bytes) (es : List Bytes)
      → parse_int 8 f.wild_card_bound ≡ some (pos n)
      → Becomes lib r
          (suc (suc (suc (suc (suc fuel)))))
          (initial lib (lib.normalize f.domain ∷ []))
          (block_words f e es)
          (configured f n e es)
  unfolding initial
  block_words-Becomes fuel n f e es h = Becomes-path lib r _ _ _ f.etcd_prefix_path _ (
      Becomes-endpoint lib r _ _ _ e es _ (
        Becomes-upstream lib r _ _ _ _ _
          (Becomes-wildcardbound lib r _ _ _ f.wild_card_bound n _ h (Becomes-end lib r fuel _))))

  core_file-read :
      (fuel n : ℕ) (f : CoreFile) (e : Bytes) (es : List Bytes) (c : lib.Controller)
      (client : lib.Client)
      → is_plain f.etcd_prefix_path ≡ true
      → all_plain (e ∷ es) ≡ true
      → is_plain f.wild_card_bound ≡ true
      → f.etcd_endpoints ≡ join blank (e ∷ es)
      → parse_int 8 f.wild_card_bound ≡ some (pos n)
      → (lib.next c).0 ≡ true
      → r.At (lib.next c).1 (codes "rdns") (f.domain ∷ []) (map r.words (block_lines f))
      → new_etcd_client lib (e ∷ es) none [] [] ≡ ok client
      → (etcd_parse lib (suc (suc (suc (suc (suc fuel))))) c).0
        ≡ ok (some (etcd_of lib (configured f n e es) client))
  unfolding initial
  core_file-read fuel n f e es c client hp he hb j hn t stands k =
      etcd_parse-of_lines lib r (suc (suc (suc (suc (suc fuel))))) c (codes "rdns") f.domain []
        (block_words f e es) (configured f n e es) client t
        (rw (words-block_lines f e es hp he hb j) at stands) (block_words-Becomes fuel n f e es hn)
        k

  -- The plugin's ETCD for a domain, a prefix and endpoints.
  abbrev pub serving : Bytes → Bytes → List Bytes → lib.Client → Etcd lib
  serving domain prefix endpoints client = record {
    zones = lib.normalize domain ∷ [];
    path_prefix = prefix;
    fall = lib.no_fall;
    upstream = some lib.new_upstream;
    wildcard_bound = wildcard_bound domain;
    client = some client;
    endpoints = endpoints;
  }

  -- Setup reads the generated block back: the zone is the domain, the path the prefix, the endpoints
  -- those between the commas, and the bound the number of the domain's labels and one. The prefix and
  -- the endpoints are plain words, the bound has seven bits, the client is made, and five rounds are enough.
  pub etcd_parse-core_file :
      (fuel : ℕ) (env : Environment) (c : lib.Controller) (client : lib.Client)
      → 5 ≤ fuel
      → is_plain (getenv env (codes "ETCD_PREFIX_PATH")) ≡ true
      → all_plain (split b',' (getenv env (codes "ETCD_ENDPOINTS"))) ≡ true
      → wildcard_bound (getenv env (codes "DOMAIN")) < 2 ^ 7
      → (lib.next c).0 ≡ true
      → r.At
          (lib.next c).1
          (codes "rdns")
          (getenv env (codes "DOMAIN") ∷ [])
          (map r.words (block_lines (core_file env)))
      → new_etcd_client lib (split b',' (getenv env (codes "ETCD_ENDPOINTS"))) none [] []
        ≡ ok client
      → (etcd_parse lib fuel c).0
        ≡ ok (
            some (
              serving
                (getenv env (codes "DOMAIN"))
                (getenv env (codes "ETCD_PREFIX_PATH"))
                (split b',' (getenv env (codes "ETCD_ENDPOINTS")))
                client))
  unfolding core_file initial
  etcd_parse-core_file fuel env c client rounds hp he hb t stands k =
      cut (split b',' (getenv env (codes "ETCD_ENDPOINTS"))) refl
    where
      five : fuel ≡ suc (suc (suc (suc (suc (fuel - 5)))))
      five = omega arith

      cut :
          (es : List Bytes)
          → split b',' (getenv env (codes "ETCD_ENDPOINTS")) ≡ es
          → (etcd_parse lib fuel c).0
            ≡ ok (
                some (
                  serving
                    (getenv env (codes "DOMAIN"))
                    (getenv env (codes "ETCD_PREFIX_PATH"))
                    (split b',' (getenv env (codes "ETCD_ENDPOINTS")))
                    client))
      cut [] p = absurd (split-ne-nil b',' (getenv env (codes "ETCD_ENDPOINTS")) p)
      cut (e ∷ es) p =
          let n = wildcard_bound (getenv env (codes "DOMAIN")) in
          ap (λ m. (etcd_parse lib m c).0) five
          ∙ core_file-read (fuel - 5) n (core_file env) e es c client hp (rw p at he)
              (is_plain-itoa n) (ap (join blank) p) (parse_int-itoa 8 n ∙ ground arith) t stands
              (rw p at k)
          ∙ rw p refl
