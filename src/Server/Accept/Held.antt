-- ===== src/Server/Accept/Held.antt =====
-- The whole of `serve` against the step relation of its sessions: what holds of the sessions holds here.
use iotd.Prelude.{List, All, if◌then◌else◌}
use iotd.Server.Listen.{Listener}
use iotd.Server.Serve.{Reach, IsHeld, IsTold}
use iotd.Server.Shutdown.{Reach-IsHeld}
use iotd.Server.Accept.{Sockets, Listening, serve, Step, Steps}

module _ {N L A C T : Type 0} (sockets : Sockets N L A C T) where
  Step-Reach : {s t : Listening N L A C T} → Step sockets s t → Reach s.serving → Reach t.serving
  Step-Reach (Step.accepts before after l e) r = r
  Step-Reach (Step.sends before after l stream e room) r = r
  Step-Reach (Step.refused before after l stream e stopped) r = r
  Step-Reach (Step.finishes before after l e cancelled) r = r
  Step-Reach Step.cancels r = r
  Step-Reach (Step.receives handle stream rest e serving fresh) r =
      Reach.arrives handle r serving fresh
  Step-Reach (Step.session_ends id) r = Reach.ends id r
  Step-Reach (Step.reaped id) r = Reach.reaped id r
  Step-Reach (Step.stops done serving) r = Reach.stops r serving

  Steps-Reach :
      (n : N) (listeners : List (Listener L A)) {s : Listening N L A C T}
      → Steps sockets (serve n listeners) s
      → Reach s.serving
  unfolding serve
  Steps-Reach n listeners Steps.here = Reach.start
  Steps-Reach n listeners (Steps.next r st) = Step-Reach st (Steps-Reach n listeners r)

  -- Whatever the listeners, the loop of `serve` and the sessions do: while the server accepts clients, the
  -- broker has the handle of every session that runs; once it has stopped, every session that still runs
  -- has been sent Cancel. A new session has an id that no running session has.
  pub Steps-IsHeld :
      (n : N) (listeners : List (Listener L A)) {s : Listening N L A C T}
      → Steps sockets (serve n listeners) s
      → if s.serving.stopped
        then All (IsTold s.serving.cancelled) s.serving.sessions
        else All (IsHeld s.serving.handles) s.serving.sessions
  Steps-IsHeld n listeners r = Reach-IsHeld (Steps-Reach n listeners r)
