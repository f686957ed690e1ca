-- ===== src/Server/Main.antt =====
-- src/server/main.c: the server process from its start to its end. What happens while main sleeps
-- is given second by second: what the requests and the worker do, and whether SIGINT arrives.
use log_aggregator_c.Base.{
  true, false, not, Bool, Option, none, some, List, [], ◌∷◌, ℤ, pos, ◌>>=◌, if◌then◌else◌,
}
use log_aggregator_c.Db.{Libpq}
use log_aggregator_c.Server.Lifecycle.{Server, Setup, start_server, stop_server}

pub record Second (pq : Libpq) : Type 0 where
  pub serve : Server pq → Server pq
  pub interrupted : Bool

-- What becomes of server_running. The message is left out.
abbrev pub interrupt_handler : Bool → Bool
interrupt_handler server_running = false

-- while (server_running) sleep(1), over the seconds given: the flag and the state behind them.
unfoldable pub wait_loop :
    {pq : Libpq} (server_running : Bool) → List (Second pq) → Server pq → Bool × Server pq
wait_loop false seconds s = (false, s)
wait_loop true [] s = (true, s)
wait_loop true (x ∷ seconds) s =
    wait_loop (if x.interrupted then interrupt_handler true else true) seconds (x.serve s)

-- The exit status, or `none` while main sleeps, and the state then. `interrupted` is whether SIGINT
-- arrives before the loop is reached.
unfoldable pub server_main :
    (pq : Libpq)
    → Setup
    → (interrupted : Bool) → List (Second pq)
    → Server pq
    → Option (Option ℤ × Server pq)
server_main pq e interrupted seconds s = start_server pq e s >>= λ r.
    if not r.0
    then some (some (pos 1), r.1)
    else (let w = wait_loop (if interrupted then interrupt_handler true else true) seconds r.1 in
        if w.0
        then some (none, w.1)
        else (stop_server pq e.rest w.1 >>= λ t. some (some (pos 0), t)))
