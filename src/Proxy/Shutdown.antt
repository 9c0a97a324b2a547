-- ===== src/Proxy/Shutdown.antt =====
-- proxy/proxy.go: what `Stop` does to the upstreams and to the accept loop.
use amqplex.Base.{
  ℕ, zero, suc, ◌≡◌, refl, sym, ◌∙◌, ap, List, [], ◌∷◌, ◌++◌, some, ◌⊎◌, inl, inr, bytes_eq,
  Bool-cases, subst,
}
use amqplex.Base.{Bool, true}
use amqplex.Frame.{Frame}
use amqplex.Upstream.{
  Upstream, Effect, abort, close_conn, abort_all, stop_write_pump, write_frame_to_upstream,
  returned,
}
use amqplex.Upstream.Steps.{stop}
use amqplex.Upstream.Reconnect.{Attempt, gave_up, reconnect_loop, reconnect_rounds}
use amqplex.Proxy.{
  Proxy, Table, slice, admit, ends, close_stopped, stop_upstream, stop_slice, stop_table,
  stop_proxy,
}
use amqplex.Proxy.Lookup.{at}

abbrev pub Among : {A : Type 0} → A → List A → Type 0
Among x [] = ⊥
Among x (y ∷ ys) = (y ≡ x) ⊎ Among x ys

module _ {A : Type 0} (x : A) where
  Among-front : (xs ys : List A) → Among x xs → Among x (xs ++ ys)
  Among-front [] ys h = absurd h
  Among-front (z ∷ xs) ys (inl e) = inl e
  Among-front (z ∷ xs) ys (inr h) = inr (Among-front xs ys h)

  Among-back : (xs ys : List A) → Among x ys → Among x (xs ++ ys)
  Among-back [] ys h = h
  Among-back (z ∷ xs) ys h = inr (Among-back xs ys h)

abort_all-Among : (c : ℕ) (cs : List ℕ) → Among c cs → Among (abort c) (abort_all cs)
unfolding abort_all
abort_all-Among c [] h = absurd h
abort_all-Among c (d ∷ cs) (inl e) = inl (ap abort e)
abort_all-Among c (d ∷ cs) (inr h) = inr (abort_all-Among c cs h)

-- The upstream's clients are dropped and its connection closed.
abbrev pub Reached : Upstream → List Effect → Type 0
Reached m effects =
    ((c : ℕ) → Among c m.clients → Among (abort c) effects)
    × ((k : ℕ) → m.conn ≡ some k → Among (close_conn k) effects)

Reached-front : (m : Upstream) (xs ys : List Effect) → Reached m xs → Reached m (xs ++ ys)
Reached-front m xs ys h = (
  λ c p. Among-front (abort c) xs ys (h.0 c p),
  λ k p. Among-front (close_conn k) xs ys (h.1 k p),
)

Reached-back : (m : Upstream) (xs ys : List Effect) → Reached m ys → Reached m (xs ++ ys)
Reached-back m xs ys h =
    (λ c p. Among-back (abort c) xs ys (h.0 c p), λ k p. Among-back (close_conn k) xs ys (h.1 k p))

-- The upstream is left as it was but for the two signals to its goroutines, and on these its reconnect
-- loop gives up at its next attempt, and a frame of a client is dropped.
pub record IsShut (before m : Upstream) : Type 0 where
  pub same : m ≡ record before { stopped = true; write_done = true }
  pub gives_up :
      (base : ℕ) (a : Attempt) (attempts : List Attempt)
      → reconnect_loop m base (a ∷ attempts) ≡ (gave_up m, [])
  pub drops : (pick_done : Bool) (f : Frame) → write_frame_to_upstream pick_done m f ≡ returned m

stop-IsShut : (m : Upstream) → IsShut m (stop m)
unfolding stop stop_write_pump reconnect_loop reconnect_rounds write_frame_to_upstream
stop-IsShut m = record {
  same = refl;
  gives_up = λ base a attempts. refl;
  drops = λ pick_done f. refl;
}

one-Reached : (m : Upstream) (rest : List Effect) → Reached m ((stop_upstream m).1 ++ rest)
unfolding stop_upstream close_stopped
one-Reached m rest = Reached-front m (stop_upstream m).1 rest (
  λ c p. Among-front (abort c) (abort_all m.clients) _ (abort_all-Among c m.clients p),
  λ k p. Among-back (close_conn k) (abort_all m.clients) _ (rw p (inl refl)),
)

some_same : (x m : Upstream) → some x ≡ some m → x ≡ m
some_same x m e = cc

-- What has become of the upstream `m` of a slice, or of a table, at the place `i`.
abbrev pub Shut : Upstream → ℕ → List Upstream → List Effect → Type 0
Shut m i ms effects = ((m' : Upstream) × ((at i ms ≡ some m') × IsShut m m')) × Reached m effects

stop_slice-Shut :
    (ms : List Upstream) (i : ℕ) (m : Upstream)
    → at i ms ≡ some m
    → Shut m i (stop_slice ms).0 (stop_slice ms).1
unfolding stop_slice
stop_slice-Shut [] i m e = cc
stop_slice-Shut (x ∷ ms) zero m e =
    subst (λ y. Shut y zero (stop_slice (x ∷ ms)).0 (stop_slice (x ∷ ms)).1) (some_same x m e)
      ((stop x, (first x, stop-IsShut x)), one-Reached x (stop_slice ms).1)
  where
    first : (y : Upstream) → some (stop_upstream y).0 ≡ some (stop y)
    first y = unfold stop_upstream in refl
stop_slice-Shut (x ∷ ms) (suc i) m e =
    let (there, reached) = stop_slice-Shut ms i m e in
    (there, Reached-back m (stop_upstream x).1 (stop_slice ms).1 reached)

stop_table-Shut :
    (table : Table) (key : List ℕ) (i : ℕ) (m : Upstream)
    → at i (slice key table) ≡ some m
    → Shut m i (slice key (stop_table table).0) (stop_table table).1
unfolding stop_table slice
stop_table-Shut [] key i m e = cc
stop_table-Shut ((k, ms) ∷ table) key i m e = elim (Bool-cases (bytes_eq k key)) [
  | inl same ↦
      let (there, reached) = stop_slice-Shut ms i m (sym (rw same refl) ∙ e) in
      (rw same there, Reached-front m (stop_slice ms).1 (stop_table table).1 reached)
  | inr other ↦
      let (there, reached) = stop_table-Shut table key i m (sym (rw other refl) ∙ e) in
      (rw other there, Reached-back m (stop_slice ms).1 (stop_table table).1 reached)
]

-- `Stop` marks every upstream of the table as stopped and tells its pump to stop, and changes nothing
-- else of it, so that a reconnect loop gives up where it begins its next attempt on it, and frames for
-- it are dropped; it drops every client of it and closes its connection. After it the table is
-- empty, and the accept loop ends with the next connection that it is handed.
pub stop_proxy-Shut :
    (p : Proxy)
    → ((key : List ℕ) (i : ℕ) (m : Upstream)
        → at i (slice key p.upstreams) ≡ some m
        → Shut m i (slice key (stop_proxy p).upstreams) (stop_proxy p).effects)
      × ((stop_proxy p).proxy.upstreams ≡ [])
      × (admit (stop_proxy p).proxy ≡ ends)
unfolding stop_proxy admit
stop_proxy-Shut p = (λ key i m e. stop_table-Shut p.upstreams key i m e, refl, refl)
