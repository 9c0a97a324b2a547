-- ===== src/Connection/Arrives.antt =====
-- Where a client that connects ends up.
use amqplex.Base.{
  ◌⊎◌, inl, inr, ℕ, ◌%◌, ◌-◌, ◌≤◌, ◌≡◌, refl, ◌∙◌, ap, arith, false, List, [], ◌∷◌, ◌++◌, Option,
  none, some,
}
use amqplex.Base.{◌||◌, if_elim}
use amqplex.Base.Result.{Result, ok, err}
use amqplex.Frame.Stream.{Writer}
use amqplex.Upstream.{Upstream, deliver, register}
use amqplex.Upstream.Steps
use amqplex.Upstream.Steps.{Reach-keeps}
use amqplex.Upstream.Constants.{Constants, Reach-constants}
use amqplex.Client.{Client}
use amqplex.Handshake.{admit_client}
use amqplex.Session.{Joined, joined, rejected, join_upstream, unavailable_frame}
use amqplex.Proxy.{
  Proxy, Outside, slice, get_or_create_managed_upstream, choose_scanned, choose_locked,
  finish_client, connected, chosen, create_upstream, at_limit,
}
use amqplex.Proxy.Lookup.{at, at-put, slice-put_upstream}
use amqplex.Proxy.Filed.{put_upstream-AllFiled}
use amqplex.Proxy.Tables.{
  IsPooled, AllPooled, get_or_create-AllPooled, AllPooled-IsFiled, AllPooled-at, Reach-IsPooled,
}
use amqplex.System.Leaving.{Reach-trans}
use amqplex.Proxy.Isolation.{Serves, get_or_create-Serves}
use amqplex.Connection.{
  Arrival, not_admitted, unavailable, turned_away, comes, nowhere, own_key, after_join, join_at,
  after_choice, after_handshake, handle_connection,
}

-- The client has joined, as the last of its clients, a running upstream that was opened with the
-- client's own credentials.
pub record JoinedOwn (p : Proxy) (cc : Client) (i : ℕ) : Type 0 where
  pub upstream : Upstream
  pub found : at i (slice (own_key cc) p.upstreams) ≡ some upstream
  pub username : upstream.username ≡ cc.username
  pub password : upstream.password ≡ cc.password
  pub vhost : upstream.vhost ≡ cc.vhost
  pub running : (upstream.stopped ≡ false) × (upstream.reconnecting ≡ false)
  pub others : List ℕ
  pub last : upstream.clients ≡ others ++ (cc.identity ∷ [])

-- How the registration ends.
abbrev Registers : Upstream → Client → Joined → Type 0
Registers m cc (joined m') =
    Steps.Reach m m'
    × (m'.stopped ≡ false)
    × (m'.reconnecting ≡ false)
    × (m'.clients ≡ m.clients ++ (cc.identity ∷ []))
Registers m cc (rejected m' effects) =
    Steps.Reach m m' × (effects ≡ deliver cc.identity unavailable_frame ∷ [])

join_upstream-Registers :
    (m : Upstream) (cc : Client) (now : ℕ) → Registers m cc (join_upstream m cc now)
unfolding join_upstream register
join_upstream-Registers m cl now =
    let m1 = register m cl.identity in
    let first = Steps.next Steps.here (Steps.registers cl.identity) in
    if_elim (Registers m cl) (m1.stopped || m1.reconnecting)
      (λ _. (Steps.next first (Steps.deregisters cl.identity now), refl))
      (λ good. (first, ground (arith, good), ground (arith, good), refl))

-- The handshake has admitted this client, and left these bytes.
abbrev pub Admitted : Result (Client × List ℕ × Writer) → Client → List ℕ → Type 0
Admitted h cc r = (w : Writer) × (h ≡ ok (cc, r, w))

-- The handshake has admitted this client.
abbrev pub AdmittedAs : Result (Client × List ℕ × Writer) → Client → Type 0
AdmittedAs h cc = (r : List ℕ) × Admitted h cc r

-- Each way in which a connection can go, with the handshake's result `h`: it returns with the count of
-- clients lowered again, and in the two cases behind the handshake with the reply 503 to the client;
-- or it has joined. `p` is the proxy from before, and `q` the one that the call finds under the write
-- lock.
abbrev pub Arrives : Result (Client × List ℕ × Writer) → Proxy → Proxy → Arrival → Type 0
Arrives h p q (not_admitted e p') = (h ≡ err e) × (p' ≡ finish_client p)
Arrives h p q (unavailable p' cc effects) =
    AdmittedAs h cc
    × (p' ≡ finish_client q)
    × (effects ≡ deliver cc.identity unavailable_frame ∷ [])
Arrives h p q (turned_away p' cc effects) =
    AdmittedAs h cc
    × AllPooled p'
    × ((p'.active_clients ≡ p.active_clients - 1) ⊎ (p'.active_clients ≡ q.active_clients - 1))
    × (effects ≡ deliver cc.identity unavailable_frame ∷ [])
Arrives h p q (comes p' cc i r) = Admitted h cc r × AllPooled p' × JoinedOwn p' cc i
Arrives h p q nowhere = ⊥

-- The count of clients in the proxy `c` is that of `p` or that of `q`.
abbrev Counted : Proxy → Proxy → Proxy → Type 0
Counted p q c = (c.active_clients ≡ p.active_clients) ⊎ (c.active_clients ≡ q.active_clients)

-- What the choice gives, with the rest of the proxy.
record Chosen (p : Proxy) (q : Proxy) (c : Proxy) (cc : Client) (i : ℕ) (m : Upstream)
    : Type 0 where
  found : at i (slice (own_key cc) c.upstreams) ≡ some m
  username : m.username ≡ cc.username
  password : m.password ≡ cc.password
  vhost : m.vhost ≡ cc.vhost
  pooled : AllPooled c
  counted : Counted p q c

joined-Arrives :
    (h : Result (Client × List ℕ × Writer)) (p q c : Proxy) (cc : Client) (r : List ℕ) (i : ℕ)
    (m mid : Upstream) (j : Joined)
    → Admitted h cc r
    → Chosen p q c cc i m
    → Steps.Reach m mid
    → Registers mid cc j
    → Arrives h p q (after_join c cc r i j)
unfolding after_join finish_client
joined-Arrives h p q c cl r i m mid (joined m') from v before (run, stopped, busy, last) =
    let P = IsPooled c.config.pool_max_channels in
    let pooled = AllPooled-at c (own_key cl) i m v.pooled v.found in
    let all = Reach-trans before run in
    let same = Reach-constants all pooled.inv in
    (
      from,
      put_upstream-AllFiled P (own_key cl) i m' c.upstreams
          (Reach-IsPooled c.config.pool_max_channels (own_key cl) all pooled) v.pooled,
      record {
        upstream = m';
        found =
            ap (at i) (slice-put_upstream (own_key cl) i m' c.upstreams)
            ∙ at-put i m' m (slice (own_key cl) c.upstreams) v.found;
        username = ap (λ (c : Constants). c.username) same ∙ v.username;
        password = ap (λ (c : Constants). c.password) same ∙ v.password;
        vhost = ap (λ (c : Constants). c.vhost) same ∙ v.vhost;
        running = (stopped, busy);
        others = mid.clients;
        last = last;
      },
    )
joined-Arrives h p q c cl r i m mid (rejected m' effects) from v before (run, told) =
    let P = IsPooled c.config.pool_max_channels in
    let pooled = AllPooled-at c (own_key cl) i m v.pooled v.found in
    (
      (r, from),
      put_upstream-AllFiled P (own_key cl) i m' c.upstreams
          (Reach-IsPooled c.config.pool_max_channels (own_key cl) (Reach-trans before run) pooled)
          v.pooled,
      lowered v.counted,
      told,
    )
  where
    lowered :
        Counted p q c
        → (c.active_clients - 1 ≡ p.active_clients - 1)
          ⊎ (c.active_clients - 1 ≡ q.active_clients - 1)
    lowered (inl e) = inl (ap (λ (n : ℕ). n - 1) e)
    lowered (inr e) = inr (ap (λ (n : ℕ). n - 1) e)

connected-active_clients :
    (p : Proxy) (username password vhost : List ℕ) (r : Result ℕ)
    → (connected p username password vhost r).0.active_clients ≡ p.active_clients
unfolding connected
connected-active_clients p username password vhost (err e) = refl
connected-active_clients p username password vhost (ok conn) = refl

chosen-active_clients :
    (out : Outside) (p : Proxy) (username password vhost : List ℕ) (o : Option ℕ)
    → (chosen out p username password vhost o).0.active_clients ≡ p.active_clients
unfolding chosen create_upstream
chosen-active_clients out p username password vhost (some i) = refl
chosen-active_clients out p username password vhost none =
    if_elim (λ (c : Proxy × Result ℕ). c.0.active_clients ≡ p.active_clients) (at_limit p)
      (λ _. refl) (λ _. connected-active_clients p username password vhost _)

choice-Counted :
    (out : Outside) (between : Proxy → Proxy) (p : Proxy) (username password vhost : List ℕ)
    (o : Option ℕ)
    → Counted p (between p) (choose_scanned out between p username password vhost o).0
unfolding choose_scanned choose_locked
choice-Counted out between p username password vhost (some i) = inl refl
choice-Counted out between p username password vhost none =
    inr (chosen-active_clients out (between p) username password vhost _)

chosen-Arrives :
    (h : Result (Client × List ℕ × Writer)) (out : Outside) (meanwhile : Upstream → Upstream)
    (p q : Proxy) (cc : Client) (r : List ℕ) (now : ℕ) (c : Proxy × Result ℕ)
    → Admitted h cc r
    → ((m : Upstream) → Steps.Reach m (meanwhile m))
    → AllPooled c.0
    → Counted p q c.0
    → Serves out q cc.username cc.password cc.vhost c
    → Arrives h p q (after_choice meanwhile cc r now c)
unfolding after_choice join_at
chosen-Arrives h out meanwhile p q cl r now (c, err e) from steps pooled counted same =
    ((r, from), ap finish_client same, refl)
chosen-Arrives h out meanwhile p q cl r now (c, ok i) from steps pooled counted
      (_, (m, found, _, u, w, vh)) =
    rw found (
      joined-Arrives h p q c cl r i m (meanwhile m) (join_upstream (meanwhile m) cl now) from
        (record {
          found = found;
          username = u;
          password = w;
          vhost = vh;
          pooled = pooled;
          counted = counted;
        })
        (steps m) (join_upstream-Registers (meanwhile m) cl now))

handshake-Arrives :
    (out : Outside) (between : Proxy → Proxy) (meanwhile : Upstream → Upstream) (p : Proxy)
    (now : ℕ) (h : Result (Client × List ℕ × Writer))
    → ((m : Upstream) → Steps.Reach m (meanwhile m))
    → 1 ≤ (between p).config.pool_max_channels % 65536
    → AllPooled p
    → AllPooled (between p)
    → Arrives h p (between p) (after_handshake out between meanwhile p now h)
unfolding after_handshake get_or_create_managed_upstream
handshake-Arrives out between meanwhile p now (err e) steps limit v later = (refl, refl)
handshake-Arrives out between meanwhile p now (ok (cl, r, w)) steps limit v later =
    let u = cl.username in
    let s = cl.password in
    let h = cl.vhost in
    chosen-Arrives (ok (cl, r, w)) out meanwhile p (between p) cl r now
      (get_or_create_managed_upstream out between p u s h) (w, refl) steps
      (get_or_create-AllPooled out between p u s h v later) (choice-Counted out between p u s h _)
      (get_or_create-Serves out between p u s h limit (AllPooled-IsFiled p v)
        (AllPooled-IsFiled (between p) later))

-- Whatever a client sends and the network answers, and whatever others do to the proxy while the
-- client waits for its lock and to the chosen upstream before the client has registered on it, where
-- all upstreams stand under their credentials before and behind the wait: a connection that the
-- handshake does not admit changes nothing but the count of clients; one that it admits and that cannot
-- be given an upstream neither, and gets the reply 503, as it does where the upstream was stopped or
-- lost just then; and any other comes to its loop as the client that the handshake has made of it, with
-- the bytes that it left, and has joined, as its last client, a running upstream that was opened with
-- exactly the user name, the password and the vhost of this client.
pub handle_connection-Arrives :
    (out : Outside) (between : Proxy → Proxy) (meanwhile : Upstream → Upstream) (p : Proxy)
    (cc : Client) (r : List ℕ) (w : Writer) (now : ℕ)
    → ((m : Upstream) → Steps.Reach m (meanwhile m))
    → 1 ≤ (between p).config.pool_max_channels % 65536
    → AllPooled p
    → AllPooled (between p)
    → Arrives
        (admit_client cc r w)
        p
        (between p)
        (handle_connection out between meanwhile p cc r w now)
unfolding handle_connection
handle_connection-Arrives out between meanwhile p cl r w now steps limit v later =
    handshake-Arrives out between meanwhile p now (admit_client cl r w) steps limit v later
