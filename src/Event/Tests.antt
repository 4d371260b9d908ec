-- ===== src/Event/Tests.antt =====
-- A bus with one waiting event, and the laws of the bus at it.
use honeypot_go.Base.{◌+◌, ◌≡◌, [], ◌∷◌}
use honeypot_go.Event.Defs.{Event, alert, new, Bus, publish}
use honeypot_go.Event.Delivery.{waiting, publish-conserves}

abbrev beep : Event
beep = new 5 alert []

abbrev two_readers : Bus
two_readers = record { subscribers = (7, beep ∷ []) ∷ (8, []) ∷ []; dropped = 0 }

publish-conserves_example :
    waiting (publish beep two_readers).subscribers + (publish beep two_readers).dropped ≡ 3
publish-conserves_example = publish-conserves beep two_readers
