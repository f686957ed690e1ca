-- ===== src/Server/Lifecycle/Joined.antt =====
-- The end of the worker thread, when the queue has been shut down.
use log_aggregator_c.Base.{
  ℕ, zero, suc, ◌≡◌, refl, ◌∙◌, ◌⊎◌, Bool, true, false, Bool-cases, Option, some, List,
  if◌then◌else◌, inl, inr,
}
use mathlib.Core.Path.{subst}
use log_aggregator_c.LogEntry.{LogEntry}
use log_aggregator_c.Cache.Ring.{IsValid}
use log_aggregator_c.Queue.Ring.{IsValid as QueueIsValid}
use log_aggregator_c.Db.{Libpq}
use log_aggregator_c.Db.Connections.{Counts}
use log_aggregator_c.Worker.{
  Worker, Turn, exits, asleep, goes_on, worker_turn, worker_loop, worker_stop,
}
use log_aggregator_c.Worker.Joining.{WorkerRest, go_on, stop_and_join}
use log_aggregator_c.Server.Lifecycle.Intact.{
  Intact, Intact-trans, still, Worked, worker_pop-Worked, finish_turn-Worked,
}

if-true : {A : Type 0} {b : Bool} (x y : A) → b ≡ true → (if b then x else y) ≡ x
if-true x y e = rw e refl

module _ {pq : Libpq} (counts : Counts pq) where
  -- A turn that is followed by more.
  Worked-then :
      {s t : Worker pq} {turn : Turn} (n : ℕ)
      → (turn ≡ exits) ⊎ (turn ≡ goes_on)
      → Intact counts s t
      → Worked counts t (worker_loop pq n t)
      → Worked counts s (go_on pq n (turn, t))
  unfolding go_on
  Worked-then {s} {t} n (inl e) i w =
      rw e (record { turn = exits; state = t; result = refl; awake = inl refl; intact = i })
  Worked-then n (inr e) i w = rw e (record {
    turn = w.turn;
    state = w.state;
    result = w.result;
    awake = w.awake;
    intact = Intact-trans counts i w.intact;
  })

  worker_loop-go_on :
      (n : ℕ) (s : Worker pq) (turn : Turn) {t : Worker pq}
      → worker_turn pq s ≡ some (turn, t)
      → go_on pq n (turn, t) ≡ worker_loop pq (suc n) s
  unfolding worker_loop go_on
  worker_loop-go_on n s exits p = rw p refl
  worker_loop-go_on n s asleep p = rw p refl
  worker_loop-go_on n s goes_on p = rw p refl

  worker_loop-Worked :
      (n : ℕ) (s : Worker pq) {cells : List LogEntry}
      → QueueIsValid s.queue
      → IsValid s.cache cells
      → s.queue.running ≡ false
      → Worked counts s (worker_loop pq n s)
  unfolding worker_loop worker_turn
  worker_loop-Worked zero s v c off = record {
    turn = goes_on;
    state = s;
    result = refl;
    awake = inr refl;
    intact = still counts s v c off;
  }
  worker_loop-Worked (suc n) s v c off = elim (Bool-cases s.running) [
    | inr ended ↦ record {
      turn = exits;
      state = s;
      result = rw ended refl;
      awake = inl refl;
      intact = still counts s v c off;
    }
    | inl on ↦
        let k = worker_pop-Worked counts s v c off in
        let i = k.intact in
        subst (Worked counts s) (worker_loop-go_on n s k.turn (if-true _ _ on ∙ k.result)) (
          Worked-then n k.awake i (worker_loop-Worked n k.state i.queue_valid i.cache_valid i.shut))
  ]

  -- A worker thread that has ended.
  pub record Joined (s : Worker pq) (o : Option (Worker pq)) : Type 0 where
    pub state : Worker pq
    pub result : o ≡ some state
    pub no_thread : state.thread ≡ false
    pub intact : Intact counts s state

  -- The test of the loop fails once worker_stop has cleared the flag.
  go_on-stopped :
      (turn : Turn) (s : Worker pq)
      → (turn ≡ exits) ⊎ (turn ≡ goes_on)
      → go_on pq 1 (turn, worker_stop pq s) ≡ some (exits, worker_stop pq s)
  unfolding go_on worker_loop worker_turn worker_stop
  go_on-stopped turn s (inl e) = rw e refl
  go_on-stopped turn s (inr e) = rw e refl

  -- worker_stop, when the queue is shut down and well formed and the cache is well formed: the
  -- thread ends, wherever it stands and however many turns it still counts makes.
  pub stop_and_join-Joined :
      (rest : WorkerRest) (s : Worker pq) {cells : List LogEntry}
      → QueueIsValid s.queue
      → IsValid s.cache cells
      → s.queue.running ≡ false
      → Joined s (stop_and_join pq rest s)
  unfolding stop_and_join worker_stop
  stop_and_join-Joined rest s v c off =
      let k = finish_turn-Worked counts rest.standing s v c off in
      let i = k.intact in
      let more =
        Worked-then rest.turns k.awake i
          (worker_loop-Worked rest.turns k.state i.queue_valid i.cache_valid i.shut) in
      let j = more.intact in
      record {
        state = record (worker_stop pq more.state) { thread = false };
        result = rw (k.result, more.result, go_on-stopped more.turn more.state more.awake) refl;
        no_thread = refl;
        intact = record {
          cells = j.cells;
          queue_valid = j.queue_valid;
          cache_valid = j.cache_valid;
          shut = j.shut;
          same_flag = j.same_flag;
          same_writer = j.same_writer;
          same_count = j.same_count;
        };
      }
