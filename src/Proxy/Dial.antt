-- ===== src/Proxy/Dial.antt =====
-- proxy/proxy.go: `dialUpstream` behind `getOrCreateManagedUpstream`. The dials themselves are net's
-- and crypto/tls's.
use amqplex.Base.{
  ℕ, ◌≡◌, refl, sym, subst, List, [], ◌∷◌, ◌⊎◌, inl, inr, Bool-cases, bytes_eq, bytes_eq_sound,
}
use amqplex.Base.Result.{Result, ok, err, ◌>>=◌, Result-cases}
use amqplex.Tls.{TlsFiles, Files, ClientTls, upstream_tls_config}
use amqplex.Tls.Policy.{OnOk, Connects, upstream_tls_config-Connects}
use amqplex.Proxy.{
  Outside, Network, tcp, tcp_tls, Url, scheme_amqp, scheme_amqps, join_host_port, default_port,
  upstream_address, parse_upstream_url, connect,
}

-- `net.Dial` and `tls.Dial` on an address: a connection's identity.
pub record Sockets : Type 0 where
  pub dial_tcp : List ℕ → Result ℕ
  pub dial_tls : ClientTls → List ℕ → Result ℕ

-- `dialUpstream`
unfoldable pub dial_upstream : Files → TlsFiles → Sockets → Network → List ℕ → Result ℕ
dial_upstream files c sockets tcp address = sockets.dial_tcp address
dial_upstream files c sockets tcp_tls address = do
  tls ← upstream_tls_config files c
  sockets.dial_tls tls address

-- The address behind a URL, with the port of its scheme where it names none.
abbrev plain_address : Url → List ℕ
plain_address u = join_host_port u.hostname (default_port u.port (b'5' ∷ b'6' ∷ b'7' ∷ b'2' ∷ []))

abbrev tls_address : Url → List ℕ
tls_address u = join_host_port u.hostname (default_port u.port (b'5' ∷ b'6' ∷ b'7' ∷ b'1' ∷ []))

-- The scheme of a URL that has an address.
abbrev HasScheme : Url → Network × List ℕ → Type 0
HasScheme u (tcp, a) = (u.scheme ≡ scheme_amqp) × (a ≡ plain_address u)
HasScheme u (tcp_tls, a) = (u.scheme ≡ scheme_amqps) × (a ≡ tls_address u)

upstream_address-HasScheme : (u : Url) → OnOk (HasScheme u) (upstream_address u)
unfolding upstream_address
upstream_address-HasScheme u = elim (Bool-cases (bytes_eq u.scheme scheme_amqp)) [
  | inl plain ↦ rw plain (bytes_eq_sound u.scheme scheme_amqp plain, refl)
  | inr other ↦ elim (Bool-cases (bytes_eq u.scheme scheme_amqps)) [
    | inl secure ↦ rw (other, secure) (bytes_eq_sound u.scheme scheme_amqps secure, refl)
    | inr neither ↦ rw (other, neither) tt
  ]
]

module _ (files : Files) (c : TlsFiles) (sockets : Sockets) where
  -- How the connection `k` to the address of a URL was dialed.
  abbrev pub IsDialed : Url → ℕ → Type 0
  IsDialed u k =
      ((u.scheme ≡ scheme_amqp) × (sockets.dial_tcp (plain_address u) ≡ ok k))
      ⊎ ((u.scheme ≡ scheme_amqps)
          × ((tls : ClientTls) × (Connects files c tls
                × (sockets.dial_tls tls (tls_address u) ≡ ok k))))

  over_tls :
      (u : Url) (k : ℕ) (loaded : Result ClientTls)
      → u.scheme ≡ scheme_amqps
      → OnOk (Connects files c) loaded
      → (do tls ← loaded; sockets.dial_tls tls (tls_address u)) ≡ ok k
      → IsDialed u k
  over_tls u k (ok tls) scheme h e = inr (scheme, (tls, (h, e)))
  over_tls u k (err bad) scheme h e = cc

  dialed :
      (u : Url) (n : Network) (a : List ℕ) (k : ℕ)
      → HasScheme u (n, a)
      → dial_upstream files c sockets n a ≡ ok k
      → IsDialed u k
  unfolding dial_upstream
  dialed u tcp a k (scheme, same) e = inl (scheme, rw (sym same) e)
  dialed u tcp_tls a k (scheme, same) e =
      over_tls u k (upstream_tls_config files c) scheme (upstream_tls_config-Connects files c)
        (rw (sym same) e)

  module _ (parse_url : List ℕ → Result Url)
      (handshake : ℕ → List ℕ → List ℕ → List ℕ → Result ℕ) where
    -- The network of a proxy with this configuration.
    abbrev pub network : Outside
    network = record {
      parse_url = parse_url;
      dial_upstream = dial_upstream files c sockets;
      handshake = handshake;
    }

    -- The connection that a handshake was made on comes from a dial of the URL.
    abbrev pub IsConnected : List ℕ → List ℕ → List ℕ → List ℕ → ℕ → Type 0
    IsConnected raw_url username password vhost k =
        (u : Url) × ((conn : ℕ) × ((parse_url raw_url ≡ ok u)
            × (IsDialed u conn × (handshake conn username password vhost ≡ ok k))))

    -- Where the proxy comes to have a connection to the broker, the handshake was made on it with the
    -- client's credentials, and the URL of the configuration has one of two schemes: amqp, and it was
    -- dialed in plain text, on port 5672 if the URL names none; or amqps, and it was dialed with TLS, on
    -- port 5671 if the URL names none, as the configured authority, client certificate and
    -- verification say. With any other scheme, and with TLS files that do not load, there is none.
    pub connect-IsConnected :
        (raw_url username password vhost : List ℕ)
        → OnOk
            (IsConnected raw_url username password vhost)
            (connect network raw_url username password vhost)
    unfolding connect parse_upstream_url
    connect-IsConnected raw_url username password vhost = elim (Result-cases (parse_url raw_url)) [
      | inr (e, bad) ↦ rw bad tt
      | inl (u, parsed) ↦ elim (Result-cases (upstream_address u)) [
        | inr (e, bad) ↦ rw (parsed, bad) tt
        | inl ((n, a), found) ↦ elim (Result-cases (dial_upstream files c sockets n a)) [
          | inr (e, bad) ↦ rw (parsed, found, bad) tt
          | inl (conn, reached) ↦ elim (Result-cases (handshake conn username password vhost)) [
            | inr (e, bad) ↦ rw (parsed, found, reached, bad) tt
            | inl (k, agreed) ↦
                rw (parsed, found, reached, agreed)
                  (
                    u,
                    (
                      conn,
                      (
                        parsed,
                        (
                          dialed u n a conn
                              (subst (OnOk (HasScheme u)) found (upstream_address-HasScheme u))
                              reached,
                          agreed,
                        ),
                      ),
                    ),
                  )
          ]
        ]
      ]
    ]
