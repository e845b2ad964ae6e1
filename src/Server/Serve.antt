-- ===== src/Server/Serve.antt =====
-- `serve` of src/server.rs with the map of session handles of src/broker.rs: which sessions run, and
-- what they are told when the server stops. A turn of the loop, and the end of a session, is a step: the
-- lock on `Broker::sessions` is held from the start of each step to its end, and the waiting for it, and
-- for room in the channel of a session's commands, is not modelled. The names are not part of this state.
use iotd.Prelude.{
  ℕ, ◌≡◌, ◌≢◌, Bytes, Bool, true, false, not, ◌&&◌, some, List, [], ◌∷◌, ◌++◌, map, All, contains,
  HashMap, get, insert, remove, ◌==◌, nat_eq, bytes_eq, if◌then◌else◌,
}
use iotd.Storage.Trait.{values}

-- `Session`: its id and the channel of its commands.
pub record Session : Type 0 where
  pub id : Bytes
  pub command_tx : ℕ

-- The future of a session, and whether it has yet to call `remove_session`.
pub record SessionFuture : Type 0 where
  pub session : Session
  pub running : Bool

-- `broker.sessions`, the futures of `serve`, the channels that were sent `Command::Cancel`, and whether
-- the loop was left.
pub record Serving : Type 0 where
  pub handles : HashMap Bytes Session
  pub sessions : List SessionFuture
  pub cancelled : List ℕ
  pub stopped : Bool

abbrev pub started : Serving
started = record { handles = []; sessions = []; cancelled = []; stopped = false }

-- `Broker::add_client`, and the push of the future.
unfoldable pub add_client : Session → Serving → Serving
add_client handle s = record s {
  handles = insert handle.id handle s.handles;
  sessions = record { session = handle; running = true } ∷ s.sessions;
}

abbrev pub finish : Bytes → SessionFuture → SessionFuture
finish id f = if f.session.id == id then record f { running = false } else f

-- The end of the session: `Broker::remove_session` on the map of the handles.
unfoldable pub end_session : Bytes → Serving → Serving
end_session id s = record s { handles = remove id s.handles; sessions = map (finish id) s.sessions }

-- `sessions.next()`: a future that has ended leaves the set, whichever it is.
unfoldable pub reap : Bytes → List SessionFuture → List SessionFuture
reap id [] = []
reap id (f ∷ rest) =
    let others = reap id rest in if not f.running && (f.session.id == id) then rest else f ∷ others

-- `Broker::cancel_all_sessions`, after the loop, once every `cancel` has been sent. That the broker's names
-- are cleared then is not modelled.
unfoldable pub cancel_all_sessions : Serving → Serving
cancel_all_sessions s = record s {
  handles = [];
  cancelled = s.cancelled ++ map (λ h. h.command_tx) (values s.handles);
  stopped = true;
}

-- No running session has this id, as of a new UUID.
abbrev pub IsFresh : Bytes → List SessionFuture → Type 0
IsFresh id = All (λ f. f.running ≡ true → f.session.id ≢ id)

pub data Reach : Serving → Type 0 where
  start : Reach started
  arrives :
      {s : Serving} (handle : Session)
      → Reach s
      → s.stopped ≡ false
      → IsFresh handle.id s.sessions
      → Reach (add_client handle s)
  ends : {s : Serving} (id : Bytes) → Reach s → Reach (end_session id s)
  reaped : {s : Serving} (id : Bytes) → Reach s → Reach (record s { sessions = reap id s.sessions })
  stops : {s : Serving} → Reach s → s.stopped ≡ false → Reach (cancel_all_sessions s)

-- The broker has the handle of the session while it runs.
abbrev pub IsHeld : HashMap Bytes Session → SessionFuture → Type 0
IsHeld handles f = f.running ≡ true → get f.session.id handles ≡ some f.session

-- The session has been told to stop, if it still runs.
abbrev pub IsTold : List ℕ → SessionFuture → Type 0
IsTold cancelled f = f.running ≡ true → contains f.session.command_tx cancelled ≡ true
