-- ===== src/Startup/Configured.antt =====
-- What a process runs with.
use amqplex.Base.{◌∷◌, ℕ, ◌≡◌, refl, subst, arith, true, List, [], Option, inl, inr}
use amqplex.Base.Text.{codes}
use amqplex.Base.Result.{Result, ok, err, Result-cases, ◌>>=◌}
use amqplex.Config.{Call, Viper, FullConfig, load_config}
use amqplex.Proxy.{Proxy, total}
use amqplex.Proxy.Limits.{Reach, WithinLimits, Reach-WithinLimits}
use amqplex.Proxy.Tables.{AllPooled, Reach-AllPooled}
use amqplex.Tls.{Files, ServerTls, Listening, new_amqp_listener, start_listener}
use amqplex.Tls.Policy.{listen, OnOk, Listens, listen-Listens}
use amqplex.Config.Loads.{searched, explicit, loaded}
use amqplex.Startup.{
  Flags, parse_flags, override_url, proxy_config, tls_files, new_proxy, run_proxy, start_process,
  Running, idle_cleanup, address,
}

-- What a process runs with: an empty proxy with the configuration `c`, listening as its TLS fields
-- say, with its sweep and its admin address.
pub record RunsWith (files : Files) (c : FullConfig) (r : Running) : Type 0 where
  pub config : r.proxy.config ≡ proxy_config c
  pub empty : r.proxy.upstreams ≡ []
  pub accepts : r.proxy.listening ≡ true
  pub nobody : r.proxy.active_clients ≡ 0
  pub listens : Listens files (tls_files c) r.listening
  pub sweep : r.cleanup ≡ idle_cleanup c
  pub admin : r.admin_address ≡ address c.listen_address c.admin_port

OnOk-map :
    {A : Type 0} (P Q : A → Type 0) (r : Result A) → OnOk P r → ((a : A) → P a → Q a) → OnOk Q r
OnOk-map P Q (ok a) h f = f a h
OnOk-map P Q (err e) h f = tt

abbrev run_new : Files → FullConfig → Result Running
run_new files c = do made ← new_proxy files c; run_proxy c made

-- The two steps of the listener succeed as one.
listening_both :
    (files : Files) (c : FullConfig) (tls : Option ServerTls) (l : Listening)
    → new_amqp_listener files (tls_files c) ≡ ok tls
    → start_listener (tls_files c) tls ≡ ok l
    → Listens files (tls_files c) l
unfolding listen
listening_both files c tls l made started =
    subst (OnOk (Listens files (tls_files c))) both (listen-Listens files (tls_files c))
  where
    both : listen files (tls_files c) ≡ ok l
    both = rw (made, started) refl

run_new-RunsWith : (files : Files) (c : FullConfig) → OnOk (RunsWith files c) (run_new files c)
unfolding new_proxy run_proxy
run_new-RunsWith files c = elim (Result-cases (new_amqp_listener files (tls_files c))) [
  | inr (e, bad) ↦ rw bad tt
  | inl (tls, made) ↦ elim (Result-cases (start_listener (tls_files c) tls)) [
    | inr (e, bad) ↦ rw (made, bad) tt
    | inl (l, started) ↦
        rw (made, started)
          (record {
            config = refl;
            empty = refl;
            accepts = refl;
            nobody = refl;
            listens = listening_both files c tls l made started;
            sweep = refl;
            admin = refl;
          })
  ]
]

-- The configuration with the URL of the command line in place of its own, if there is one.
abbrev pub with_url : List ℕ → FullConfig → FullConfig
with_url [] c = c
with_url (b ∷ bs) c = record c { upstream_url = b ∷ bs }

-- The calls that choose and read the file.
abbrev pub source : List ℕ → List Call
source [] = searched
source (b ∷ bs) = explicit (b ∷ bs)

-- The proxy of a process that has started holds nothing yet.
abbrev IsFresh : Running → Type 0
IsFresh r = (r.proxy.upstreams ≡ []) × (r.proxy.active_clients ≡ 0)

start_process-IsFresh :
    (v : Viper) (files : Files) (parsed : Result Flags)
    → OnOk IsFresh (start_process v files parsed)
unfolding start_process
start_process-IsFresh v files parsed = elim (Result-cases (parse_flags parsed)) [
  | inr (e, bad) ↦ rw bad tt
  | inl ((path, url), flags) ↦ elim (Result-cases (load_config v path (codes "AMQP"))) [
    | inr (e, bad) ↦ rw (flags, bad) tt
    | inl (c, loaded) ↦
        let u = override_url url c in
        rw (flags, loaded)
          (OnOk-map (RunsWith files u) IsFresh (run_new files u) (run_new-RunsWith files u)
            (λ r w. (w.empty, w.nobody)))
  ]
]

-- However a process was started: once its proxy runs, whatever clients, sweeps, a stop and the
-- upstreams themselves do in any order, it is within its two limits, and each of its upstreams stands
-- under its own credentials, with well-formed channel tables and the pool's limit.
pub start_process-Safe :
    (v : Viper) (files : Files) (parsed : Result Flags) (r : Running) (q : Proxy)
    → start_process v files parsed ≡ ok r
    → Reach r.proxy q
    → WithinLimits q × AllPooled q
unfolding total
start_process-Safe v files parsed r q started reach =
    let (empty, nobody) = subst (OnOk IsFresh) started (start_process-IsFresh v files parsed) in
    (
      Reach-WithinLimits r.proxy q reach (record {
        upstreams = λ limited. rw empty (omega arith);
        clients = λ limited. omega (arith, nobody);
      }),
      Reach-AllPooled r.proxy q reach empty,
    )
