-- ===== src/Proxy/Tables.antt =====
-- What holds of every upstream in the proxy's table, whatever happens to the table and to them.
use amqplex.Base.{
  ℕ, ◌%◌, ◌≡◌, refl, sym, ◌∙◌, ap, subst, List, [], Option, none, some, Bool-cases, Option-cases,
  inl, inr,
}
use amqplex.Base.Result.{Result, ok, err}
use amqplex.Upstream.{Upstream, start}
use amqplex.Upstream.Invariant.{Inv}
use amqplex.Upstream.Steps.{new_upstream, new_upstream-Inv, Step-Inv}
use amqplex.Upstream.Steps
use amqplex.Upstream.Constants.{Constants, Step-constants}
use amqplex.Proxy.{
  Proxy, Outside, slice, at_limit, connect, connected, create_upstream, chosen, choose_locked,
  choose_scanned, get_or_create_managed_upstream, first_with_capacity, finish_client, stop_proxy,
}
use amqplex.Proxy.Key.{pool_key}
use amqplex.Proxy.Isolation.{key_of, IsFiled}
use amqplex.Proxy.Lookup.{at}
use amqplex.Proxy.Limits.{
  Step, Reach, accept, leave, choose, sweep, shut_down, works, here, step, admit-serves,
}
use amqplex.Proxy.Filed.{
  AllFiled, All-at, slice-AllFiled, append_upstream-AllFiled, remove_idle-AllFiled,
  put_upstream-AllFiled,
}

-- The upstream stands under the key of its own credentials, its tables are well-formed, and its limit
-- is the pool's.
pub record IsPooled (pool_max : ℕ) (key : List ℕ) (m : Upstream) : Type 0 where
  pub filed : key_of m ≡ key
  pub inv : Inv m
  pub limit : m.max_channels ≡ pool_max % 65536

abbrev pub AllPooled : Proxy → Type 0
AllPooled p = AllFiled (IsPooled p.config.pool_max_channels) p.upstreams

pub AllPooled-at :
    (p : Proxy) (key : List ℕ) (i : ℕ) (m : Upstream)
    → AllPooled p
    → at i (slice key p.upstreams) ≡ some m
    → IsPooled p.config.pool_max_channels key m
AllPooled-at p key i m v found =
    let P = IsPooled p.config.pool_max_channels in
    All-at P key (slice key p.upstreams) i m (slice-AllFiled P key p.upstreams v) found

pub AllPooled-IsFiled : (p : Proxy) → AllPooled p → IsFiled p.upstreams
AllPooled-IsFiled p v key i m found = (AllPooled-at p key i m v found).filed

pub new-IsPooled :
    (username password vhost : List ℕ) (limit conn : ℕ)
    → IsPooled limit
        (pool_key username password vhost)
        (start (new_upstream username password vhost limit) conn)
unfolding start new_upstream
new-IsPooled username password vhost limit conn = record {
  filed = refl;
  inv = Step-Inv (Steps.starts conn) (new_upstream-Inv username password vhost limit);
  limit = refl;
}

Step-IsPooled :
    (pool_max : ℕ) (key : List ℕ) {m m' : Upstream}
    → Steps.Step m m'
    → IsPooled pool_max key m
    → IsPooled pool_max key m'
Step-IsPooled pool_max key st v =
    let same = Step-constants st v.inv in
    record {
      filed = ap (λ (c : Constants). pool_key c.username c.password c.vhost) same ∙ v.filed;
      inv = Step-Inv st v.inv;
      limit = ap (λ (c : Constants). c.max_channels) same ∙ v.limit;
    }

pub Reach-IsPooled :
    (pool_max : ℕ) (key : List ℕ) {m m' : Upstream}
    → Steps.Reach m m'
    → IsPooled pool_max key m
    → IsPooled pool_max key m'
Reach-IsPooled pool_max key Steps.here v = v
Reach-IsPooled pool_max key (Steps.next r st) v =
    Step-IsPooled pool_max key st (Reach-IsPooled pool_max key r v)

connected-AllPooled :
    (p : Proxy) (username password vhost : List ℕ) (r : Result ℕ)
    → AllPooled p
    → AllPooled (connected p username password vhost r).0
unfolding connected
connected-AllPooled p username password vhost (err e) v = v
connected-AllPooled p username password vhost (ok conn) v =
    append_upstream-AllFiled (IsPooled p.config.pool_max_channels)
      (pool_key username password vhost) _ p.upstreams
      (new-IsPooled username password vhost p.config.pool_max_channels conn) v

chosen-AllPooled :
    (out : Outside) (p : Proxy) (username password vhost : List ℕ) (o : Option ℕ)
    → AllPooled p
    → AllPooled (chosen out p username password vhost o).0
unfolding chosen create_upstream
chosen-AllPooled out p username password vhost (some i) v = v
chosen-AllPooled out p username password vhost none v = elim (Bool-cases (at_limit p)) [
  | inl full ↦ rw full v
  | inr room ↦ rw room (
      connected-AllPooled p username password vhost
        (connect out p.config.upstream_url username password vhost) v)
]

pub choose_locked-AllPooled :
    (out : Outside) (p : Proxy) (username password vhost : List ℕ)
    → AllPooled p
    → AllPooled (choose_locked out p username password vhost).0
unfolding choose_locked
choose_locked-AllPooled out p username password vhost v =
    chosen-AllPooled out p username password vhost _ v

-- The whole call keeps it, if what others do between the locks does.
pub get_or_create-AllPooled :
    (out : Outside) (between : Proxy → Proxy) (p : Proxy) (username password vhost : List ℕ)
    → AllPooled p
    → AllPooled (between p)
    → AllPooled (get_or_create_managed_upstream out between p username password vhost).0
unfolding get_or_create_managed_upstream choose_scanned
get_or_create-AllPooled out between p username password vhost v later =
    elim (Option-cases
      (first_with_capacity (slice (pool_key username password vhost) p.upstreams))) [
        | inl free ↦ rw free (choose_locked-AllPooled out (between p) username password vhost later)
        | inr (i, found) ↦ rw found v
      ]

Step-AllPooled : (p p' : Proxy) → Step p p' → AllPooled p → AllPooled p'
unfolding finish_client stop_proxy
Step-AllPooled _ _ (accept p p' e) v = subst AllPooled (sym (admit-serves p p' e).0) v
Step-AllPooled _ _ (leave p) v = v
Step-AllPooled _ _ (choose out p username password vhost) v =
    choose_locked-AllPooled out p username password vhost v
Step-AllPooled _ _ (works p key i m m' found st) v =
    let P = IsPooled p.config.pool_max_channels in
    put_upstream-AllFiled P key i m' p.upstreams
      (Step-IsPooled p.config.pool_max_channels key st (AllPooled-at p key i m v found)) v
Step-AllPooled _ _ (sweep p timeout now) v =
    remove_idle-AllFiled (IsPooled p.config.pool_max_channels) timeout now p.upstreams v
Step-AllPooled _ _ (shut_down p) v = tt

-- Whatever happens to the proxy and to its upstreams, in any order, from an empty table on: every
-- upstream of the table stands under the key of the user name, the password and the vhost that it was
-- opened with, its channel tables are well-formed, and its limit is the pool's, cut to 16 bits.
pub Reach-AllPooled : (p q : Proxy) → Reach p q → p.upstreams ≡ [] → AllPooled q
Reach-AllPooled p _ (here _) e = rw e tt
Reach-AllPooled p q (step _ mid _ before last) e =
    Step-AllPooled mid q last (Reach-AllPooled p mid before e)
