-- ===== src/Service/Session.antt =====
-- A client's requests in a row: the answer to the creation of a domain, and what its token is good for.
pub mod Examples
use rdns_server.Base.{
  ◌≡◌, ◌≢◌, ◌∙◌, refl, sym, ap, true, List, [], ◌∷◌, ◌++◌, none, some, Bytes, codes, All, Result,
  Result-cases, inl, inr, ok, err,
}
use rdns_server.Text.{dot}
use rdns_server.Text.RoundTrip.{Lacks}
use rdns_server.Model.{Domain, DomainOptions}
use rdns_server.Etcdv3.Names.{sub_name}
use rdns_server.Service.{
  Backend, Library, HttpRequest, Response, ok_status, bearer, hashed, encoded, generate_token,
  http_error, error_status,
}
use rdns_server.Service.Handlers.{with_token, token_reply, parsed, marked, create_domain}
use rdns_server.Service.Routes.{Route, handler_of, serve_route}
use rdns_server.Service.Access.{below, generate_token-opens}

module _ (lib : Library) (b : Backend) where
  -- The answer to the creation of a domain that succeeded.
  abbrev pub created : Domain → Bytes → Response
  created d token = record { status = ok_status; message = []; domain = some d; token = token }

  refused :
      (text token : Bytes) (d : Domain) (s t : b.State)
      → ◌≡◌ {A = Response × b.State} (http_error error_status text, s) (created d token, t)
      → ⊥
  refused text token d s t h = cc

  with_token-created :
      (d d' : Domain) (token : Bytes) (t : b.State) (p : Result Bytes Bytes × b.State)
      → with_token lib b d' p ≡ (created d token, t)
      → (d' ≡ d) × (p ≡ (ok token, t))
  with_token-created d d' token t (ok k, s) h = (cc, cc)
  with_token-created d d' token t (err x, s) h = absurd (refused x token d s t h)

  token_reply-created :
      (d : Domain) (token : Bytes) (t : b.State) (p : Result b.Error Domain × b.State)
      → token_reply lib b p ≡ (created d token, t)
      → (u : b.State) × (generate_token lib b d.fqdn u ≡ (ok token, t))
  unfolding token_reply
  token_reply-created d token t (ok d', s) h =
      let (same_domain, made) =
        with_token-created d d' token t (generate_token lib b d'.fqdn s) h in
      (s, ap (λ x. generate_token lib b x.fqdn s) (sym same_domain) ∙ made)
  token_reply-created d token t (err x, s) h = absurd (refused (b.error_text x) token d s t h)

  create_domain-created :
      (r : HttpRequest) (d : Domain) (token : Bytes) (s t : b.State)
      → create_domain lib b r s ≡ (created d token, t)
      → (u : b.State) × (generate_token lib b d.fqdn u ≡ (ok token, t))
  unfolding create_domain parsed
  create_domain-created r d token s t h = elim (Result-cases r.domain_options) [
    | inl (o, e) ↦ token_reply-created d token t (b.set (marked r o) s) (rw e at h)
    | inr (x, e) ↦ absurd (refused x token d s t (rw e at h))
  ]

  hashed-ok :
      (p : Result b.Error Bytes × b.State) (token : Bytes) (t : b.State)
      → hashed lib b p ≡ (ok token, t)
      → (origin : Bytes) × (p ≡ (ok origin, t))
  unfolding hashed
  hashed-ok (ok origin, s) token t h = (origin, ap (λ x. (ok origin, x)) (ap (λ x. x.1) h))
  hashed-ok (err x, s) token t h = absurd cc

  module _ (decodes : (h : Bytes) → lib.decode (lib.encode h) ≡ some h)
      (compares : (o h : Bytes) → lib.hash o ≡ ok h → lib.compare_hash h o ≡ true)
      (reads : (n : Bytes) (s : b.State) → (b.get_token n s).1 ≡ s) where
    -- The token in the answer to the creation of a slug's domain is good for what follows: on any route, a
    -- request with it for that name or one below it reaches its handler, on the state after the creation.
    -- Base64 decodes what it encoded, bcrypt accepts its own hashes, reading a token leaves the backend's
    -- state alone, the slug is one label, and the token does not begin with one of the bytes that TrimLeft
    -- takes off.
    pub create_domain-opens :
        (route : Route) (create r : HttpRequest) (s t : b.State) (d : Domain) (ks : List Bytes)
        (slug token : Bytes)
        → create_domain lib b create s ≡ (created d token, t)
        → d.fqdn ≡ sub_name slug b.zone
        → All (Lacks dot) ks
        → Lacks dot slug
        → bearer token ≡ token
        → r.fqdn ≡ some (below ks (sub_name slug b.zone))
        → r.authorization ≡ codes "Bearer " ++ token
        → serve_route lib b route r t ≡ handler_of lib b route r t
    unfolding serve_route generate_token
    create_domain-opens route create r s t d ks slug token h at_slug labels label kept named
          header =
        let (u, made) = create_domain-created create d token s t h in
        let (origin, got) = hashed-ok (b.get_token d.fqdn u) token t made in
        let same_state : u ≡ t = sym (reads d.fqdn u) ∙ ap (λ p. p.1) got in
        generate_token-opens lib b decodes compares (handler_of lib b route) r t ks slug origin
          token labels label (rw (same_state, at_slug) at got) (rw (same_state, at_slug) at made)
          kept named header
