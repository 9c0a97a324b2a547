-- ===== src/Proxy/Metrics/Text.antt =====
-- proxy/metrics.go: the text of a scrape.
use amqplex.Base.{
  ℕ, zero, suc, ◌+◌, ◌/◌, ◌%◌, ◌≤◌, ◌≡◌, refl, sym, ◌∙◌, ap, arith, List, [], ◌∷◌, ◌++◌, All,
  All-append, if_elim, ltb,
}
use amqplex.Base.Text.{codes}
use amqplex.Proxy.Key.{digits, decimal, value, value-digits}
use amqplex.Proxy.Metrics.{Metrics}

abbrev newline : ℕ
newline = 10

-- The lines of one metric, without its value.
abbrev active_clients_lines : List ℕ
active_clients_lines =
    codes "# HELP amqplex_active_clients Current number of connected clients."
    ++ (newline
        ∷ (codes "# TYPE amqplex_active_clients gauge"
            ++ (newline ∷ codes "amqplex_active_clients ")))

abbrev upstream_total_lines : List ℕ
upstream_total_lines =
    codes "# HELP amqplex_upstream_connections Total upstream AMQP connections."
    ++ (newline
        ∷ (codes "# TYPE amqplex_upstream_connections gauge"
            ++ (newline ∷ codes "amqplex_upstream_connections ")))

abbrev upstream_reconnecting_lines : List ℕ
upstream_reconnecting_lines =
    codes "# HELP amqplex_upstream_reconnecting Upstream connections currently in reconnect loop."
    ++ (newline
        ∷ (codes "# TYPE amqplex_upstream_reconnecting gauge"
            ++ (newline ∷ codes "amqplex_upstream_reconnecting ")))

abbrev channels_used_lines : List ℕ
channels_used_lines =
    codes "# HELP amqplex_channels_used Total AMQP channels currently allocated."
    ++ (newline
        ∷ (codes "# TYPE amqplex_channels_used gauge"
            ++ (newline ∷ codes "amqplex_channels_used ")))

abbrev channels_pending_close_lines : List ℕ
channels_pending_close_lines =
    codes "# HELP amqplex_channels_pending_close Channels awaiting Channel.CloseOk from broker."
    ++ (newline
        ∷ (codes "# TYPE amqplex_channels_pending_close gauge"
            ++ (newline ∷ codes "amqplex_channels_pending_close ")))

abbrev reconnect_attempts_lines : List ℕ
reconnect_attempts_lines =
    codes
      "# HELP amqplex_upstream_reconnect_attempts_total Cumulative upstream reconnect attempts since proxy start."
    ++ (newline
        ∷ (codes "# TYPE amqplex_upstream_reconnect_attempts_total counter"
            ++ (newline ∷ codes "amqplex_upstream_reconnect_attempts_total ")))

-- One metric, its value with `%d`, and what follows.
unfoldable pub sample : List ℕ → ℕ → List ℕ → List ℕ
sample lines n rest = lines ++ (decimal n ++ (newline ∷ rest))

-- The body of the response.
unfoldable pub metrics_text : Metrics → List ℕ
metrics_text s = sample active_clients_lines s.active_clients (
    sample upstream_total_lines s.upstream_total (
      sample upstream_reconnecting_lines s.upstream_reconnecting (
        sample channels_used_lines s.channels_used (
          sample channels_pending_close_lines s.channels_pending_close
            (sample reconnect_attempts_lines s.reconnect_attempts [])))))

same_front : (xs ys zs : List ℕ) → xs ++ ys ≡ xs ++ zs → ys ≡ zs
same_front [] ys zs e = e
same_front (x ∷ xs) ys zs e = same_front xs ys zs (cc e)

abbrev IsDigit : ℕ → Type 0
IsDigit d = 48 ≤ d

digits-IsDigit : (fuel n : ℕ) → All IsDigit (digits fuel n)
unfolding digits
digits-IsDigit zero n = tt
digits-IsDigit (suc fuel) n =
    if_elim (All IsDigit) (ltb n 10) (λ small. (omega arith, tt))
      (λ big.
        All-append IsDigit (digits fuel (n / 10)) ((b'0' + n % 10) ∷ [])
          (digits-IsDigit fuel (n / 10)) (omega arith, tt))

-- Digits end at the newline.
split_line :
    (xs ys r s : List ℕ)
    → All IsDigit xs
    → All IsDigit ys
    → xs ++ (newline ∷ r) ≡ ys ++ (newline ∷ s)
    → (xs ≡ ys) × (r ≡ s)
split_line [] [] r s p q e = (refl, cc e)
split_line [] (y ∷ ys) r s p q e = absurd (ground (arith, q.0))
split_line (x ∷ xs) [] r s p q e = absurd (ground (arith, p.0))
split_line (x ∷ xs) (y ∷ ys) r s p q e = ground (arith, split_line xs ys r s p.1 q.1)

decimal_same : (m n : ℕ) → decimal m ≡ decimal n → m ≡ n
unfolding decimal
decimal_same m n e =
    sym (value-digits (suc m) m (omega arith))
    ∙ ap (value 0) e
    ∙ value-digits (suc n) n (omega arith)

sample_same :
    (lines : List ℕ) (m n : ℕ) (r s : List ℕ)
    → sample lines m r ≡ sample lines n s
    → (m ≡ n) × (r ≡ s)
unfolding sample decimal
sample_same lines m n r s e =
    let (d, rest) =
      split_line (decimal m) (decimal n) r s (digits-IsDigit (suc m) m) (digits-IsDigit (suc n) n)
        (same_front lines _ _ e) in
    (decimal_same m n d, rest)

-- Two snapshots that print the same are the same: the text of a scrape tells all six numbers.
pub metrics_text_injective : (s t : Metrics) → metrics_text s ≡ metrics_text t → s ≡ t
unfolding metrics_text
metrics_text_injective s t e =
    let (e0, r0) = sample_same active_clients_lines s.active_clients t.active_clients _ _ e in
    let (e1, r1) = sample_same upstream_total_lines s.upstream_total t.upstream_total _ _ r0 in
    let (e2, r2) =
      sample_same upstream_reconnecting_lines s.upstream_reconnecting t.upstream_reconnecting _ _
        r1 in
    let (e3, r3) = sample_same channels_used_lines s.channels_used t.channels_used _ _ r2 in
    let (e4, r4) =
      sample_same channels_pending_close_lines s.channels_pending_close t.channels_pending_close _ _
        r3 in
    let (e5, r5) =
      sample_same reconnect_attempts_lines s.reconnect_attempts t.reconnect_attempts _ _ r4 in
    λ i. record {
      active_clients = e0 i;
      upstream_total = e1 i;
      upstream_reconnecting = e2 i;
      channels_used = e3 i;
      channels_pending_close = e4 i;
      reconnect_attempts = e5 i;
    }
