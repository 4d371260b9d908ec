-- ===== src/Event/Delivery.antt =====
-- What the bus delivers and drops: the law of `Publish`.
use honeypot_go.Base.{
  ℕ, ◌+◌, ◌≡◌, List, [], ◌∷◌, length, length-append, arith, ltb, Bool-cases, inl, inr,
}
use honeypot_go.Event.Defs.{Event, Bus, queue_cap, deliver, publish}

-- The events that wait in all queues.
abbrev pub waiting : List (ℕ × List Event) → ℕ
waiting [] = 0
waiting ((id, q) ∷ qs) = length q + waiting qs

deliver-conserves :
    (ev : Event) (qs : List (ℕ × List Event)) (d : ℕ)
    → waiting (deliver ev qs d).0 + (deliver ev qs d).1 ≡ waiting qs + d + length qs
unfolding deliver
deliver-conserves ev [] d = omega arith
deliver-conserves ev ((id, q) ∷ qs) d = elim (Bool-cases (ltb (length q) queue_cap)) [
  | inl r ↦ rw r (omega (arith, length-append q (ev ∷ []), deliver-conserves ev qs d))
  | inr f ↦ rw f (omega (arith, deliver-conserves ev qs (d + 1)))
]

-- With a Publish the waiting events and the count of dropped ones together grow by exactly the number
-- of subscribers.
pub publish-conserves :
    (ev : Event) (b : Bus)
    → waiting (publish ev b).subscribers + (publish ev b).dropped
      ≡ waiting b.subscribers + b.dropped + length b.subscribers
unfolding publish
publish-conserves ev b = deliver-conserves ev b.subscribers b.dropped
