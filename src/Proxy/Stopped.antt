-- ===== src/Proxy/Stopped.antt =====
-- Runs of the proxy's steps, and that none of them makes a stopped proxy listen again.
use amqplex.Base.{ℕ, ◌≡◌, refl, ap, ◌∙◌, false, List, Option, none, some, inl, inr, Bool-cases}
use amqplex.Base.Result.{Result, ok, err}
use amqplex.Proxy.{
  Proxy, Outside, finish_client, stop_proxy, choose_locked, chosen, create_upstream, connected,
  at_limit, connect, first_with_capacity, slice,
}
use amqplex.Proxy.Key.{pool_key}
use amqplex.Proxy.Limits.{Step, Reach, admit-serves}
use amqplex.Proxy.Limits

pub Reach-trans : (p q r : Proxy) → Reach p q → Reach q r → Reach p r
Reach-trans p q _ before (Limits.here _) = before
Reach-trans p q r before (Limits.step _ mid _ more last) =
    Limits.step p mid r (Reach-trans p q mid before more) last

connected-listening :
    (p : Proxy) (username password vhost : List ℕ) (r : Result ℕ)
    → (connected p username password vhost r).0.listening ≡ p.listening
unfolding connected
connected-listening p username password vhost (err e) = refl
connected-listening p username password vhost (ok conn) = refl

chosen-listening :
    (out : Outside) (p : Proxy) (username password vhost : List ℕ) (o : Option ℕ)
    → (chosen out p username password vhost o).0.listening ≡ p.listening
unfolding chosen create_upstream
chosen-listening out p username password vhost (some i) = refl
chosen-listening out p username password vhost none = elim (Bool-cases (at_limit p)) [
  | inl full ↦ rw full refl
  | inr room ↦ rw room (
      connected-listening p username password vhost
        (connect out p.config.upstream_url username password vhost))
]

Step-stays_stopped : (p q : Proxy) → Step p q → p.listening ≡ false → q.listening ≡ false
unfolding choose_locked finish_client stop_proxy
Step-stays_stopped _ _ (Limits.accept p q e) h = ap (λ x. x.listening) (admit-serves p q e).0 ∙ h
Step-stays_stopped _ _ (Limits.leave p) h = h
Step-stays_stopped _ _ (Limits.choose out p username password vhost) h =
    chosen-listening out p username password vhost
      (first_with_capacity (slice (pool_key username password vhost) p.upstreams))
    ∙ h
Step-stays_stopped _ _ (Limits.works p key i m m' found st) h = h
Step-stays_stopped _ _ (Limits.sweep p timeout now) h = h
Step-stays_stopped _ _ (Limits.shut_down p) h = refl

pub stays_stopped : (p q : Proxy) → Reach p q → p.listening ≡ false → q.listening ≡ false
stays_stopped _ _ (Limits.here p) h = h
stays_stopped _ _ (Limits.step p mid q before last) h =
    Step-stays_stopped mid q last (stays_stopped p mid before h)
