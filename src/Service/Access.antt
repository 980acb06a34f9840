-- ===== src/Service/Access.antt =====
-- Who passes tokenMiddleware of service/token.go.
use rdns_server.Base.{
  ℕ, suc, ◌+◌, ◌-◌, ◌≡◌, refl, ap, ◌∙◌, ◌⊎◌, inl, inr, true, false, List, [], ◌∷◌, ◌++◌, none, some,
  Bytes, codes, length, ltb, Result, ok, err, arith, All, Bool-cases, Option-cases,
}
use rdns_server.Text.{split, split_after_n, cuts, onto_first, trim_left_set, dot}
use rdns_server.Text.RoundTrip.{Lacks, split-append}
use rdns_server.Etcdv3.Names.{sub_name}
use rdns_server.Service.{
  Backend, Library, HttpRequest, Response, Handler, http_error, forbidden_status, guarded, bearer,
  owner, last_piece, generate_token, compare_token, compared, allow, encoded, hashed,
  token_middleware,
}

-- A name with these labels before it.
unfoldable pub below : List Bytes → Bytes → Bytes
below [] n = n
below (k ∷ ks) n = sub_name k (below ks n)

pub length-below :
    (ks : List Bytes) (n : Bytes)
    → All (Lacks dot) ks
    → length (split dot (below ks n)) ≡ length ks + length (split dot n)
unfolding below
length-below [] n h = omega arith
length-below (k ∷ ks) n (hk, h) =
    omega (arith, ap length (split-append dot k (below ks n) hk), length-below ks n h)

pub cuts-append :
    (m : ℕ) (k s : Bytes)
    → Lacks dot k
    → cuts true dot (suc m) (k ++ dot ∷ s) ≡ (k ++ dot ∷ []) ∷ cuts true dot m s
unfolding cuts onto_first
cuts-append m [] s h = refl
cuts-append m (c ∷ k) s (hc, h) = ground (arith, cuts-append m k s h)

cuts-below :
    (ks : List Bytes) (n x : Bytes)
    → All (Lacks dot) ks
    → last_piece x (cuts true dot (length ks) (below ks n)) ≡ n
unfolding below last_piece
cuts-below [] n x h = unfold cuts in refl
cuts-below (k ∷ ks) n x (hk, h) =
    rw (cuts-append (length ks) k (below ks n) hk) (cuts-below ks n (k ++ dot ∷ []) h)

-- The token of a name with any labels before a slug's name is the token of the slug's name, where each
-- label and the slug hold no dot.
pub owner-below :
    (ks : List Bytes) (slug zone : Bytes)
    → All (Lacks dot) ks
    → Lacks dot slug
    → owner zone (below ks (sub_name slug zone)) ≡ sub_name slug zone
unfolding owner below split_after_n cuts
owner-below [] slug zone h hs =
    let e : ltb (length (split dot zone) + 1) (length (split dot (sub_name slug zone))) ≡ false =
      ground (arith, ap length (split-append dot slug zone hs)) in
    rw (e, owner) refl
owner-below (k ∷ ks) slug zone h hs =
    let name = below (k ∷ ks) (sub_name slug zone) in
    let labels : length (split dot name) ≡ length ks + 2 + length (split dot zone) = omega (
      arith,
      length-below (k ∷ ks) (sub_name slug zone) h,
      ap length (split-append dot slug zone hs),
    ) in
    let deep : ltb (length (split dot zone) + 1) (length (split dot name)) ≡ true = ground arith in
    let cut : length (split dot name) - length (split dot zone) ≡ suc (suc (length ks)) =
      omega arith in
    rw (deep, cut, owner) (cuts-below (k ∷ ks) (sub_name slug zone) name h)

module _ (lib : Library) (b : Backend) where
  guarded-run :
      (next : Handler lib b) (r : HttpRequest) (s : b.State) (f : Bytes)
      → guarded r.method r.path ≡ true
      → r.fqdn ≡ some f
      → token_middleware lib b next r s
        ≡ allow lib b next r (compare_token lib b f (bearer r.authorization) s)
  unfolding token_middleware
  guarded-run next r s f g e = simp (token_middleware, g, e)

  compare_token-decoded :
      (f token hash : Bytes) (s : b.State)
      → lib.decode token ≡ some hash
      → compare_token lib b f token s ≡ compared lib b hash (b.get_token (owner b.zone f) s)
  unfolding compare_token
  compare_token-decoded f token hash s d = rw (d, compare_token) refl

  compare_token-garbled :
      (f token : Bytes) (s : b.State)
      → lib.decode token ≡ none
      → compare_token lib b f token s ≡ (false, s)
  unfolding compare_token
  compare_token-garbled f token s d = rw (d, compare_token) refl

  -- The answer to a request without the right token.
  abbrev pub forbidden : Response
  forbidden = http_error forbidden_status (codes "forbidden to use")

  -- A read of the stored token that fails, or gives a token that the hash is not of.
  abbrev pub Mismatch : Bytes → Result b.Error Bytes × b.State → b.State → Type 0
  Mismatch hash x t =
      ((e : b.Error) × (x ≡ (err e, t)))
      ⊎ ((origin : Bytes) × (x ≡ (ok origin, t)) × (lib.compare_hash hash origin ≡ false))

  -- A request that is refused, with the reason, the whole answer and the state: no more was done than
  -- reading the stored token.
  abbrev pub Refused : HttpRequest → b.State → Response × b.State → Type 0
  Refused r s x =
      ((r.fqdn ≡ none) × (x ≡ (http_error forbidden_status (codes "must specific the fqdn"), s)))
      ⊎ ((f : Bytes) × (r.fqdn ≡ some f)
          × (((lib.decode (bearer r.authorization) ≡ none) × (x ≡ (forbidden, s)))
              ⊎ ((hash : Bytes) × (t : b.State) × (lib.decode (bearer r.authorization) ≡ some hash)
                  × Mismatch hash (b.get_token (owner b.zone f) s) t
                  × (x ≡ (forbidden, t)))))

  allow-compared :
      (next : Handler lib b) (r : HttpRequest) (hash : Bytes) (x : Result b.Error Bytes × b.State)
      → ((t : b.State) × Mismatch hash x t
          × (allow lib b next r (compared lib b hash x) ≡ (forbidden, t)))
        ⊎ ((origin : Bytes) × (t : b.State) × (x ≡ (ok origin, t))
            × (lib.compare_hash hash origin ≡ true)
            × (allow lib b next r (compared lib b hash x) ≡ next r t))
  unfolding allow compared
  allow-compared next r hash (err e, t) = inl (t, inl (e, refl), refl)
  allow-compared next r hash (ok origin, t) = elim (Bool-cases (lib.compare_hash hash origin)) [
    | inl e ↦ inr (origin, t, refl, e, rw e refl)
    | inr e ↦ inl (t, inr (origin, refl, e), rw e refl)
  ]

  -- Behind a guarded path the handler runs only for a name in the path, with a token in the header that
  -- decodes to a hash of the token that the backend has for the name's owner. Any other request is
  -- refused with the status Forbidden and without running the handler: the state is the one that reading
  -- the stored token left, or the one before where no token was read.
  pub token_middleware_lem :
      (next : Handler lib b) (r : HttpRequest) (s : b.State)
      → guarded r.method r.path ≡ true
      → Refused r s (token_middleware lib b next r s)
        ⊎ ((f : Bytes) × (hash : Bytes) × (origin : Bytes) × (t : b.State) × (r.fqdn ≡ some f)
            × (lib.decode (bearer r.authorization) ≡ some hash)
            × (b.get_token (owner b.zone f) s ≡ (ok origin, t))
            × (lib.compare_hash hash origin ≡ true)
            × (token_middleware lib b next r s ≡ next r t))
  unfolding token_middleware allow
  token_middleware_lem next r s g = elim (Option-cases r.fqdn) [
    | inl n ↦ inl (inl (n, rw (g, n, token_middleware) refl))
    | inr (f, e) ↦ elim (Option-cases (lib.decode (bearer r.authorization))) [
      | inl n ↦
          let p =
            guarded-run next r s f g e
            ∙ ap (allow lib b next r) (compare_token-garbled f (bearer r.authorization) s n) in
          inl (inr (f, e, inl (n, p)))
      | inr (hash, d) ↦
          let p =
            guarded-run next r s f g e
            ∙ ap (allow lib b next r) (compare_token-decoded f (bearer r.authorization) hash s d) in
          elim (allow-compared next r hash (b.get_token (owner b.zone f) s)) [
            | inl (t, m, q) ↦ inl (inr (f, e, inr (hash, t, d, m, p ∙ q)))
            | inr (origin, t, o, c, q) ↦ inr (f, hash, origin, t, e, d, o, c, p ∙ q)
          ]
    ]
  ]

  accepted :
      (s : b.State) (hash origin : Bytes)
      → lib.compare_hash hash origin ≡ true
      → compared lib b hash (ok origin, s) ≡ (true, s)
  unfolding compared
  accepted s hash origin h = rw h refl

  allowed :
      (next : Handler lib b) (r : HttpRequest) (s : b.State)
      → allow lib b next r (true, s) ≡ next r s
  unfolding allow
  allowed next r s = refl

  encode-hash :
      (x : Result Bytes Bytes) (token : Bytes) (s : b.State)
      → ◌≡◌ {A = Result Bytes Bytes × b.State} (encoded lib b x, s) (ok token, s)
      → (hash : Bytes) × (x ≡ ok hash) × (token ≡ lib.encode hash)
  encode-hash (ok h) token s e = (h, refl, cc)
  encode-hash (err x) token s e = absurd (cc)

  generate_token-encode :
      (f origin token : Bytes) (s : b.State)
      → b.get_token f s ≡ (ok origin, s)
      → generate_token lib b f s ≡ (ok token, s)
      → (hash : Bytes) × (lib.hash origin ≡ ok hash) × (token ≡ lib.encode hash)
  unfolding generate_token hashed
  generate_token-encode f origin token s g h =
      encode-hash (lib.hash origin) token s (rw (g, generate_token) at h)

  module _ (decodes : (h : Bytes) → lib.decode (lib.encode h) ≡ some h)
      (compares : (o h : Bytes) → lib.hash o ≡ ok h → lib.compare_hash h o ≡ true) where
    -- The token that is generated for a name opens that name and every name below it: a request with
    -- it in the header reaches the handler. Base64 decodes what it encoded, bcrypt accepts its own
    -- hashes, reading the token leaves the backend's state alone, the slug is one label, and the token
    -- does not begin with one of the bytes that TrimLeft takes off.
    pub generate_token-opens :
        (next : Handler lib b) (r : HttpRequest) (s : b.State) (ks : List Bytes)
        (slug origin token : Bytes)
        → All (Lacks dot) ks
        → Lacks dot slug
        → b.get_token (sub_name slug b.zone) s ≡ (ok origin, s)
        → generate_token lib b (sub_name slug b.zone) s ≡ (ok token, s)
        → bearer token ≡ token
        → r.fqdn ≡ some (below ks (sub_name slug b.zone))
        → r.authorization ≡ codes "Bearer " ++ token
        → token_middleware lib b next r s ≡ next r s
    unfolding bearer trim_left_set token_middleware
    generate_token-opens next r s ks slug origin token labels label got made kept named header =
        elim (Bool-cases (guarded r.method r.path)) [
          | inr o ↦ rw (o, token_middleware) refl
          | inl g ↦
              let f = below ks (sub_name slug b.zone) in
              let (hash, made_of, coded) =
                generate_token-encode (sub_name slug b.zone) origin token s got made in
              let carried : bearer r.authorization ≡ token = ap bearer header ∙ kept in
              let decoded : lib.decode (bearer r.authorization) ≡ some hash =
                ap lib.decode (carried ∙ coded) ∙ decodes hash in
              let owned : b.get_token (owner b.zone f) s ≡ (ok origin, s) =
                ap (λ n. b.get_token n s) (owner-below ks slug b.zone labels label) ∙ got in
              guarded-run next r s f g named
              ∙ ap (allow lib b next r) (
                  compare_token-decoded f (bearer r.authorization) hash s decoded
                  ∙ ap (compared lib b hash) owned
                  ∙ accepted s hash origin (compares origin hash made_of))
              ∙ allowed next r s
        ]
