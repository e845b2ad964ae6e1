-- ===== src/Server/Shutdown.antt =====
-- `serve` of src/server.rs: no session is left without its handle, or without being told to stop.
use iotd.Prelude.{
  ℕ, ◌≡◌, ◌≢◌, refl, sym, ◌∙◌, Bytes, Bool, true, false, not, ◌&&◌, some, List, [], ◌∷◌, ◌++◌, map,
  All, contains, HashMap, get, insert, remove, get-insert, get-remove, beq_ne, beq_refl, All-map,
  beq_comm, Bool-cases, inl, inr, ◌==◌, nat_eq, bytes_eq, if◌then◌else◌, arith,
}
use iotd.Storage.Trait.{values}
use iotd.Server.Serve.{
  Session, SessionFuture, Serving, add_client, finish, end_session, reap, cancel_all_sessions,
  Reach, IsHeld, IsTold,
}

abbrev Invariant : Serving → Type 0
Invariant s =
    (s.stopped ≡ false → All (IsHeld s.handles) s.sessions)
    × (s.stopped ≡ true → All (IsTold s.cancelled) s.sessions)

All-if :
    (P : SessionFuture → Type 0) (b : Bool) (fs gs : List SessionFuture)
    → All P fs
    → All P gs
    → All P (if b then fs else gs)
All-if P true fs gs h k = h
All-if P false fs gs h k = k

All-reap :
    (P : SessionFuture → Type 0) (id : Bytes) (fs : List SessionFuture)
    → All P fs
    → All P (reap id fs)
unfolding reap
All-reap P id [] h = tt
All-reap P id (f ∷ fs) (p, h) =
    All-if P (not f.running && (f.session.id == id)) fs (f ∷ reap id fs) h (p, All-reap P id fs h)

no_run : {A : Type 0} → false ≡ true → A
no_run h = absurd (ground (arith, h))

-- A future that is not of this session keeps its handle, and the others have ended.
finish-IsHeld :
    (id : Bytes) (handles : HashMap Bytes Session) (f : SessionFuture)
    → IsHeld handles f
    → IsHeld (remove id handles) (finish id f)
finish-IsHeld id handles f p = elim (Bool-cases (f.session.id == id)) [
  | inl same ↦ rw same (λ runs. no_run runs)
  | inr other ↦
      rw other
        (λ runs. get-remove id f.session.id handles ∙ rw (beq_comm id f.session.id, other) (p runs))
]

finish-IsTold :
    (id : Bytes) (cancelled : List ℕ) (f : SessionFuture)
    → IsTold cancelled f
    → IsTold cancelled (finish id f)
finish-IsTold id cancelled f p = elim (Bool-cases (f.session.id == id)) [
  | inl same ↦ rw same (λ runs. no_run runs)
  | inr other ↦ rw other p
]

All-finish :
    (id : Bytes) (P Q : SessionFuture → Type 0)
    → ((f : SessionFuture) → P f → Q (finish id f))
    → (fs : List SessionFuture) → All P fs
    → All Q (map (finish id) fs)
All-finish id P Q g [] h = tt
All-finish id P Q g (f ∷ fs) (p, h) = (g f p, All-finish id P Q g fs h)

IsHeld-insert :
    (handle : Session) (handles : HashMap Bytes Session) (f : SessionFuture)
    → (f.running ≡ true → f.session.id ≢ handle.id)
    → IsHeld handles f
    → IsHeld (insert handle.id handle handles) f
IsHeld-insert handle handles f fresh h runs =
    get-insert handle.id f.session.id handle handles
    ∙ rw (beq_ne handle.id f.session.id (λ e. fresh runs (sym e))) (h runs)

contains-append : (n : ℕ) (ns ms : List ℕ) → contains n ms ≡ true → contains n (ns ++ ms) ≡ true
contains-append n [] ms h = h
contains-append n (m ∷ ns) ms h = ground (arith, contains-append n ns ms h)

contains-values :
    (id : Bytes) (handle : Session) (handles : HashMap Bytes Session)
    → get id handles ≡ some handle
    → contains handle.command_tx (map (λ h. h.command_tx) (values handles)) ≡ true
unfolding get
contains-values id handle [] h = ground arith
contains-values id handle ((k, v) ∷ handles) h =
    ground (arith, contains-values id handle handles, h)

All-zip :
    (P Q R : SessionFuture → Type 0)
    → ((f : SessionFuture) → P f → Q f → R f)
    → (fs : List SessionFuture) → All P fs
    → All Q fs
    → All R fs
All-zip P Q R g [] h k = tt
All-zip P Q R g (f ∷ fs) (p, h) (q, k) = (g f p q, All-zip P Q R g fs h k)

Reach-Invariant : {s : Serving} → Reach s → Invariant s
unfolding add_client end_session cancel_all_sessions
Reach-Invariant Reach.start = (λ _. tt, λ h. no_run h)
Reach-Invariant (Reach.arrives {s} handle r serving fresh) = (
  λ h. (
    λ _. get-insert handle.id handle.id handle s.handles ∙ rw (beq_refl handle.id) refl,
    All-zip _ _ (IsHeld (insert handle.id handle s.handles)) (IsHeld-insert handle s.handles)
        s.sessions fresh ((Reach-Invariant r).0 serving),
  ),
  λ stopped. no_run (sym serving ∙ stopped),
)
Reach-Invariant (Reach.ends {s} id r) = (
  λ serving.
      All-finish id (IsHeld s.handles) (IsHeld (remove id s.handles)) (finish-IsHeld id s.handles)
        s.sessions ((Reach-Invariant r).0 serving),
  λ stopped.
      All-finish id (IsTold s.cancelled) (IsTold s.cancelled) (finish-IsTold id s.cancelled)
        s.sessions ((Reach-Invariant r).1 stopped),
)
Reach-Invariant (Reach.reaped {s} id r) = (
  λ serving. All-reap (IsHeld s.handles) id s.sessions ((Reach-Invariant r).0 serving),
  λ stopped. All-reap (IsTold s.cancelled) id s.sessions ((Reach-Invariant r).1 stopped),
)
Reach-Invariant (Reach.stops {s} r serving) = (
  λ h. no_run (sym h),
  λ _.
      All-map {Q = IsTold (s.cancelled ++ map (λ h. h.command_tx) (values s.handles))}
        (λ f held runs.
          contains-append f.session.command_tx s.cancelled
            (map (λ h. h.command_tx) (values s.handles))
            (contains-values f.session.id f.session s.handles (held runs)))
        s.sessions ((Reach-Invariant r).0 serving),
)

-- While the server accepts clients, the broker has the handle of every session that runs; once it has
-- stopped, every session that still runs has been sent Cancel.
pub Reach-IsHeld :
    {s : Serving}
    → Reach s
    → if s.stopped then All (IsTold s.cancelled) s.sessions else All (IsHeld s.handles) s.sessions
Reach-IsHeld {s} r = chosen s.stopped (Reach-Invariant r).0 (Reach-Invariant r).1
  where
    chosen :
        (b : Bool)
        → (b ≡ false → All (IsHeld s.handles) s.sessions)
        → (b ≡ true → All (IsTold s.cancelled) s.sessions)
        → if b then All (IsTold s.cancelled) s.sessions else All (IsHeld s.handles) s.sessions
    chosen true f t = t refl
    chosen false f t = f refl
