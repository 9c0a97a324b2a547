-- ===== src/Proxy/Isolation.antt =====
-- proxy/proxy.go: which upstream `getOrCreateManagedUpstream` gives to a client.
use amqplex.Base.{
  ℕ, zero, suc, ◌%◌, ◌≤◌, ◌≡◌, refl, sym, ◌∙◌, ap, arith, true, List, [], ◌∷◌, ◌++◌, some, length,
  bytes_eq, bytes_eq_sound, Bool-cases, Option-cases, ◌⊎◌, inl, inr, subst,
}
use amqplex.Base.Maps.{size}
use amqplex.Base.Result.{Result, ok, err}
use amqplex.Upstream.{Upstream, has_capacity, start}
use amqplex.Upstream.Steps.{new_upstream}
use amqplex.Proxy.{
  Proxy, Outside, Table, slice, append_upstream, first_with_capacity, at_limit, connect, connected,
  create_upstream, chosen, choose_locked, choose_scanned, get_or_create_managed_upstream,
}
use amqplex.Proxy.Key.{pool_key, pool_key_injective}
use amqplex.Proxy.Lookup.{
  at, slice-append_upstream, slice_other-append_upstream, at-append, first_with_capacity-at,
}

abbrev pub key_of : Upstream → List ℕ
key_of m = pool_key m.username m.password m.vhost

-- Every upstream stands under the key of its own credentials.
abbrev pub IsFiled : Table → Type 0
IsFiled table =
    (key : List ℕ) (i : ℕ) (m : Upstream) → at i (slice key table) ≡ some m → key_of m ≡ key

at_append-cases :
    (ms : List Upstream) (x : Upstream) (i : ℕ) (m : Upstream)
    → at i (ms ++ (x ∷ [])) ≡ some m
    → (at i ms ≡ some m) ⊎ (m ≡ x)
at_append-cases [] x zero m e = inr (cc)
at_append-cases [] x (suc i) m e = cc
at_append-cases (y ∷ ms) x zero m e = inl e
at_append-cases (y ∷ ms) x (suc i) m e = at_append-cases ms x i m e

pub append_upstream-IsFiled :
    (m : Upstream) (table : Table) → IsFiled table → IsFiled (append_upstream (key_of m) m table)
append_upstream-IsFiled m table filed key i x e = elim (Bool-cases (bytes_eq (key_of m) key)) [
  | inr other ↦
      filed key i x (sym (ap (at i) (slice_other-append_upstream (key_of m) key m table other)) ∙ e)
  | inl same ↦
      let k = bytes_eq_sound (key_of m) key same in
      elim (at_append-cases (slice key table) m i x (sym (ap (at i) (slice_same key k)) ∙ e)) [
        | inl old ↦ filed key i x old
        | inr new ↦ ap key_of new ∙ k
      ]
]
  where
    slice_same :
        (other : List ℕ)
        → key_of m ≡ other
        → slice other (append_upstream (key_of m) m table) ≡ slice other table ++ (m ∷ [])
    slice_same other k =
        subst (λ z. slice z (append_upstream (key_of m) m table) ≡ slice z table ++ (m ∷ [])) k
          (slice-append_upstream (key_of m) m table)

module _ (out : Outside) (p : Proxy) (username password vhost : List ℕ) where
  abbrev own_key : List ℕ
  own_key = pool_key username password vhost

  -- The upstream at the place is there, has capacity, and is the client's.
  abbrev pub Serves : Proxy × Result ℕ → Type 0
  Serves (p', err e) = p' ≡ p
  Serves (p', ok i) =
      IsFiled p'.upstreams
      × ((m : Upstream) × (at i (slice (pool_key username password vhost) p'.upstreams) ≡ some m)
          × (has_capacity m ≡ true)
          × (m.username ≡ username)
          × (m.password ≡ password)
          × (m.vhost ≡ vhost))

  abbrev fresh : ℕ → Upstream
  fresh conn = start (new_upstream username password vhost p.config.pool_max_channels) conn

  fresh-has_capacity :
      (conn : ℕ) → 1 ≤ p.config.pool_max_channels % 65536 → has_capacity (fresh conn) ≡ true
  unfolding has_capacity start new_upstream size
  fresh-has_capacity conn h = ground arith

  connected-Serves :
      (r : Result ℕ)
      → 1 ≤ p.config.pool_max_channels % 65536
      → IsFiled p.upstreams
      → Serves (connected p username password vhost r)
  unfolding connected start new_upstream
  connected-Serves (err e) h filed = refl
  connected-Serves (ok conn) h filed = (
    append_upstream-IsFiled (fresh conn) p.upstreams filed,
    (
      fresh conn,
      ap (at (length (slice own_key p.upstreams)))
            (slice-append_upstream own_key (fresh conn) p.upstreams)
          ∙ at-append (slice own_key p.upstreams) (fresh conn),
      fresh-has_capacity conn h,
      refl,
      refl,
      refl,
    ),
  )

  found-Serves :
      (q : Proxy) (i : ℕ)
      → IsFiled q.upstreams
      → first_with_capacity (slice own_key q.upstreams) ≡ some i
      → Serves (q, ok i)
  found-Serves q i filed found =
      let (m, here, free) = first_with_capacity-at (slice own_key q.upstreams) i found in
      let same =
        pool_key_injective m.username m.password m.vhost username password vhost
          (filed own_key i m here) in
      (filed, (m, here, free, same.0, same.1, same.2))

  pub choose_locked-Serves :
      1 ≤ p.config.pool_max_channels % 65536
      → IsFiled p.upstreams
      → Serves (choose_locked out p username password vhost)
  unfolding choose_locked chosen create_upstream
  choose_locked-Serves h filed =
      elim (Option-cases (first_with_capacity (slice own_key p.upstreams))) [
        | inl free ↦ rw free (elim (Bool-cases (at_limit p)) [
          | inl full ↦ rw full refl
          | inr room ↦
              rw room (
                connected-Serves (connect out p.config.upstream_url username password vhost) h
                  filed)
        ])
        | inr (i, found) ↦ rw found (found-Serves p i filed found)
      ]

-- Where every upstream stands under its own credentials, also after what others do between the two
-- locks, and the pool's limit is not cut to 0: a client is given an upstream that is in the table, has
-- capacity, and was opened with exactly the client's user name, password and vhost, and the table
-- stays in order; or the call fails, and nothing but the others has changed anything.
pub get_or_create-Serves :
    (out : Outside) (between : Proxy → Proxy) (p : Proxy) (username password vhost : List ℕ)
    → 1 ≤ (between p).config.pool_max_channels % 65536
    → IsFiled p.upstreams
    → IsFiled (between p).upstreams
    → Serves out
        (between p)
        username
        password
        vhost
        (get_or_create_managed_upstream out between p username password vhost)
unfolding get_or_create_managed_upstream choose_scanned
get_or_create-Serves out between p username password vhost limit filed later =
    elim (Option-cases
      (first_with_capacity (slice (pool_key username password vhost) p.upstreams))) [
        | inl free ↦
            rw free (choose_locked-Serves out (between p) username password vhost limit later)
        | inr (i, found) ↦
            rw found (found-Serves out (between p) username password vhost p i filed found)
      ]
