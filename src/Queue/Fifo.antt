-- ===== src/Queue/Fifo.antt =====
-- What the queue promises: a first-in first-out list of at most `queue_capacity` entries that can
-- be closed. An operation that cannot go on sleeps; a closed queue takes nothing more and gives out
-- what it still holds.
use log_aggregator_c.Base.{
  ◌≡◌, ◌≢◌, arith, Bool-cases, inl, inr, Bool, true, false, Option, none, some, List, [], ◌∷◌, ◌++◌,
  pos, negsuc, length, ◌==◌, if◌then◌else◌,
}
use log_aggregator_c.Config.{queue_capacity}
use log_aggregator_c.LogEntry.{LogEntry}
use log_aggregator_c.Queue.{Pass, sleeps, returns}

pub record Fifo : Type 0 where
  pub items : List LogEntry  -- oldest first
  pub running : Bool

unfoldable pub offer : Fifo → LogEntry → Pass × Fifo
offer f e =
    if f.running
    then if length f.items == queue_capacity
      then (sleeps, f)
      else (returns (pos 0), record f { items = f.items ++ (e ∷ []) })
    else (returns (negsuc 0), f)

abbrev pub poll_items : List LogEntry → Bool → Pass × Option LogEntry × Fifo
poll_items [] true = (sleeps, none, record { items = []; running = true })
poll_items [] false = (returns (negsuc 0), none, record { items = []; running = false })
poll_items (e ∷ rest) running =
    (returns (pos 0), some e, record { items = rest; running = running })

unfoldable pub poll : Fifo → Pass × Option LogEntry × Fifo
poll f = poll_items f.items f.running

-- The three things that `offer` does.
pub data Offered (f : Fifo) (e : LogEntry) : Type 0 where
  full : f.running ≡ true → length f.items ≡ queue_capacity → offer f e ≡ (sleeps, f) → Offered f e
  closed : f.running ≡ false → offer f e ≡ (returns (negsuc 0), f) → Offered f e
  taken :
      f.running ≡ true
      → length f.items ≢ queue_capacity
      → offer f e ≡ (returns (pos 0), record f { items = f.items ++ (e ∷ []) })
      → Offered f e

pub offer-cases : (f : Fifo) (e : LogEntry) → Offered f e
unfolding offer
offer-cases f e = elim (Bool-cases f.running) [
  | inr off ↦ closed off (ground (arith, off))
  | inl on ↦ elim (Bool-cases (length f.items == queue_capacity)) [
    | inl no_room ↦ full on (ground (arith, no_room)) (ground (arith, no_room, on))
    | inr room ↦ taken on (ground (arith, room)) (ground (arith, room, on))
  ]
]
