-- ===== src/Detect/Monitor.antt =====
-- `monitorBusDropped` of internal/detect/detector.go: what its ticks publish.
use honeypot_go.Base.{
  ℕ, ◌+◌, ◌-◌, ◌≤◌, ◌≡◌, Option, none, some, List, [], ◌∷◌, ◌++◌, if◌then◌else◌, leb, codes,
  decimal, arith, Bool-cases, inl, inr, same,
}
use honeypot_go.Base.Dict.{get}
use honeypot_go.Event.Defs.{Event, Value, alert, new, str, num}

abbrev pub overload_event : ℕ → ℕ → ℕ → Event
overload_event now drop cur = new now alert (
    (codes "rule_name", str (codes "event_bus_overload"))
    ∷ (codes "severity", str (codes "medium"))
    ∷ (codes "source_ip", str (codes "internal"))
    ∷ (
      codes "evidence",
      str (
          codes "event bus dropped "
          ++ (decimal drop
              ++ (codes " events in last window (total " ++ (decimal cur ++ codes ")")))),
    )
    ∷ (codes "dropped_in_window", num drop)
    ∷ [])

-- One tick, with what `Dropped` returns in it: the new `last`, and the alert published if any.
unfoldable pub monitor_tick : ℕ → ℕ → ℕ → ℕ × Option Event
unfolding decimal
monitor_tick now cur last =
    if leb cur last then (cur, none) else (cur, some (overload_event now (cur - last) cur))

abbrev pub put_some {ℓ} : {A : Type ℓ} → Option A → List A → List A
put_some none rest = rest
put_some (some a) rest = a ∷ rest

-- The ticks of the loop, each at its time and with the count that it reads.
unfoldable pub monitor : List (ℕ × ℕ) → ℕ → List Event
unfolding monitor_tick
monitor [] last = []
monitor ((now, cur) ∷ ticks) last =
    let (last', ev) = monitor_tick now cur last in put_some ev (monitor ticks last')

-- The number that an alert reports.
abbrev pub as_num : Option Value → ℕ
as_num (some (num n)) = n
as_num _ = 0

abbrev pub reported : List Event → ℕ
reported [] = 0
reported (ev ∷ evs) = as_num (get (codes "dropped_in_window") ev.values) + reported evs

abbrev pub final_count : List (ℕ × ℕ) → ℕ → ℕ
final_count [] last = last
final_count ((now, cur) ∷ ticks) last = final_count ticks cur

-- The counts never fall from tick to tick.
abbrev pub IsRising : List (ℕ × ℕ) → ℕ → Type 0
IsRising [] last = Unit {0}
IsRising ((now, cur) ∷ ticks) last = (last ≤ cur) × IsRising ticks cur

-- While the count of dropped events does not fall from tick to tick, the numbers that the alerts
-- report add up to the last count less the one at the start.
pub reported-monitor :
    (ticks : List (ℕ × ℕ)) (last : ℕ)
    → IsRising ticks last
    → reported (monitor ticks last) + last ≡ final_count ticks last
unfolding monitor get same
reported-monitor [] last h = omega arith
reported-monitor ((now, cur) ∷ ticks) last h = elim (Bool-cases (leb cur last)) [
  | inl t ↦ rw t (
      let q : cur ≡ last = ground (arith, h.0, t) in
      omega (arith, reported-monitor ticks cur h.1, q))
  | inr t ↦ rw t (omega (arith, reported-monitor ticks cur h.1, h.0))
]
