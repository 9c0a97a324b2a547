-- ===== src/Tls/Policy.antt =====
-- What a configuration of files makes of the two sides.
use amqplex.Base.{
  ℕ, ◌≡◌, refl, Bool, true, false, ◌&&◌, List, [], ◌∷◌, Option, none, some, Bool-cases, inl, inr,
}
use amqplex.Base.Result.{Result, ok, err, ◌>>=◌, Result-cases}
use amqplex.Tls.{
  TlsFiles, Files, Listening, plain_text, with_tls, is_given, new_amqp_listener, start_listener,
  ClientTls, load_tls_config, upstream_tls_config, server_certificate, or_empty, start_tls,
  client_authorities, root_authorities, client_certificate,
}

-- Create the listener, then start it.
unfoldable pub listen : Files → TlsFiles → Result Listening
listen files c = do tls ← new_amqp_listener files c; start_listener c tls

-- The property holds of the value, if there is one.
abbrev pub OnOk {ℓ} : {A : Type ℓ} → (A → Type 0) → Result A → Type 0
OnOk P (ok a) = P a
OnOk P (err e) = Unit {0}

abbrev pub FromPool : Files → List ℕ → Option ℕ → Type 0
FromPool files path none = is_given path ≡ false
FromPool files path (some pool) = (is_given path ≡ true) × (files.load_pool path ≡ ok pool)

abbrev pub FromPair : Files → List ℕ → List ℕ → Option ℕ → Type 0
FromPair files cert key none = (is_given cert && is_given key) ≡ false
FromPair files cert key (some pair) =
    ((is_given cert && is_given key) ≡ true) × (files.load_key_pair cert key ≡ ok pair)

abbrev pub Listens : Files → TlsFiles → Listening → Type 0
Listens files c plain_text = (is_given c.tls_cert && is_given c.tls_key) ≡ false
Listens files c (with_tls t) =
    ((is_given c.tls_cert && is_given c.tls_key) ≡ true)
    × FromPair files c.tls_cert c.tls_key t.certificate
    × FromPool files c.tls_ca_cert t.client_cas

-- Where the proxy comes to listen: it listens in plain text exactly if the certificate or the key is
-- missing, whatever else is configured; else with TLS and the configured pair, and it asks for client
-- certificates exactly if an authority file is given, and checks them against that file.
pub listen-Listens : (files : Files) (c : TlsFiles) → OnOk (Listens files c) (listen files c)
unfolding listen new_amqp_listener start_listener server_certificate client_authorities or_empty
    start_tls
listen-Listens files c = elim (Bool-cases (is_given c.tls_cert && is_given c.tls_key)) [
  | inr none_ ↦ elim (Bool-cases (is_given c.tls_ca_cert)) [
    | inr n ↦ rw (none_, n) none_
    | inl y ↦ elim (Result-cases (files.load_pool c.tls_ca_cert)) [
      | inl (pool, p) ↦ rw (none_, y, p) none_
      | inr (e, p) ↦ rw (none_, y, p) tt
    ]
  ]
  | inl both ↦ elim (Result-cases (files.load_key_pair c.tls_cert c.tls_key)) [
    | inr (e, q) ↦ rw (both, q) tt
    | inl (pair, q) ↦ elim (Bool-cases (is_given c.tls_ca_cert)) [
      | inr n ↦ rw (both, q, n) (both, (both, q), n)
      | inl y ↦ elim (Result-cases (files.load_pool c.tls_ca_cert)) [
        | inl (pool, p) ↦ rw (both, q, y, p) (both, (both, q), (y, p))
        | inr (e, p) ↦ rw (both, q, y, p) tt
      ]
    ]
  ]
]

abbrev pub Connects : Files → TlsFiles → ClientTls → Type 0
Connects files c t =
    (t.skip_verify ≡ c.tls_skip_verify)
    × ((is_given c.tls_ca_cert ≡ true → files.load_pool c.tls_ca_cert ≡ ok t.root_cas)
        × (is_given c.tls_ca_cert ≡ false → t.root_cas ≡ files.system_pool))
    × (is_given c.tls_client_cert ≡ is_given c.tls_client_key)
    × FromPair files c.tls_client_cert c.tls_client_key t.certificate

-- The client certificate alone.
Presents : Files → List ℕ → List ℕ → Option ℕ → Type 0
Presents files cert key o = (is_given cert ≡ is_given key) × FromPair files cert key o

client_certificate-Presents :
    (files : Files) (cert key : List ℕ)
    → OnOk (Presents files cert key) (client_certificate files cert key)
unfolding client_certificate Presents
client_certificate-Presents files [] [] = (refl, refl)
client_certificate-Presents files [] (k ∷ ks) = tt
client_certificate-Presents files (b ∷ bs) [] = tt
client_certificate-Presents files (b ∷ bs) (k ∷ ks) =
    elim (Result-cases (files.load_key_pair (b ∷ bs) (k ∷ ks))) [
      | inl (pair, q) ↦ rw q (refl, (refl, q))
      | inr (e, q) ↦ rw q tt
    ]

module _ (files : Files) (c : TlsFiles) where
  presented :
      (skip : Bool) (roots : ℕ)
      → (is_given c.tls_ca_cert ≡ true → files.load_pool c.tls_ca_cert ≡ ok roots)
      → (is_given c.tls_ca_cert ≡ false → roots ≡ files.system_pool)
      → skip ≡ c.tls_skip_verify
      → OnOk (Connects files c) (do
        certificate ← client_certificate files c.tls_client_cert c.tls_client_key
        ok (record { root_cas = roots; certificate = certificate; skip_verify = skip }))
  unfolding Presents
  presented skip roots given system same =
      with_certificate (client_certificate files c.tls_client_cert c.tls_client_key)
        (client_certificate-Presents files c.tls_client_cert c.tls_client_key)
    where
      with_certificate :
          (r : Result (Option ℕ))
          → OnOk (Presents files c.tls_client_cert c.tls_client_key) r
          → OnOk (Connects files c) (do
            certificate ← r
            ok (record { root_cas = roots; certificate = certificate; skip_verify = skip }))
      with_certificate (err e) h = tt
      with_certificate (ok o) h = (same, (given, system), h.0, h.1)

-- Where the configuration towards the broker loads: certificates are verified as configured, against
-- the authority file if one is given and the system's authorities else; and the client certificate
-- and its key are either both given, and the pair is presented, or both missing, and none is.
pub upstream_tls_config-Connects :
    (files : Files) (c : TlsFiles) → OnOk (Connects files c) (upstream_tls_config files c)
unfolding upstream_tls_config load_tls_config root_authorities client_certificate
upstream_tls_config-Connects files c = elim (Bool-cases (is_given c.tls_ca_cert)) [
  | inr n ↦ rw n (presented files c c.tls_skip_verify files.system_pool (λ y. cc) (λ _. refl) refl)
  | inl y ↦ elim (Result-cases (files.load_pool c.tls_ca_cert)) [
    | inl (pool, p) ↦ rw (y, p) (presented files c c.tls_skip_verify pool (λ _. p) (λ n. cc) refl)
    | inr (e, p) ↦ rw (y, p) tt
  ]
]
