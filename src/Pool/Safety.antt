-- ===== src/Pool/Safety.antt =====
-- pool/channel.go: whether a channel is safe to reuse.
use amqplex.Base.{ℕ, ◌≡◌, refl, ◌∙◌, Bool, true, false, not, ◌&&◌, List, [], ◌∷◌, if◌then◌else◌}
use amqplex.Pool.{Channel, is_one_of, unsafe_ops, record_operation, is_safe, reset}

-- The operations recorded one after the other.
unfoldable pub record_all : Channel → List (List ℕ) → Channel
record_all c [] = c
record_all c (op ∷ ops) = record_all (record_operation c op) ops

-- None of them is among the unsafe ones.
unfoldable pub all_safe : List (List ℕ) → Bool
all_safe [] = true
all_safe (op ∷ ops) = not (is_one_of op unsafe_ops) && all_safe ops

record_all-is_safe :
    (c : Channel) (ops : List (List ℕ)) → is_safe (record_all c ops) ≡ (is_safe c && all_safe ops)
unfolding record_all all_safe is_safe record_operation
record_all-is_safe c [] = and_true (is_safe c)
  where
    and_true : (b : Bool) → b ≡ (b && true)
    and_true true = refl
    and_true false = refl
record_all-is_safe c (op ∷ ops) =
    record_all-is_safe (record_operation c op) ops
    ∙ one_more c.unsafe (is_one_of op unsafe_ops) (all_safe ops)
  where
    one_more :
        (was now rest : Bool)
        → (not (if now then true else was) && rest) ≡ (not was && (not now && rest))
    one_more true true rest = refl
    one_more true false rest = refl
    one_more false true rest = refl
    one_more false false rest = refl

-- A channel that was reset is safe after any operations exactly if none of them is Consume, Qos, Ack,
-- Reject, Nack or a (un)binding of a queue or an exchange, whatever it did before the reset.
pub reset-record_all :
    (c : Channel) (ops : List (List ℕ)) → is_safe (record_all (reset c) ops) ≡ all_safe ops
unfolding is_safe reset
reset-record_all c ops = record_all-is_safe (reset c) ops
