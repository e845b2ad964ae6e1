-- ===== src/Session/Connect/Takeover.antt =====
-- What a takeover leaves of the session that is taken over.
use iotd.Prelude.{
  ◌≡◌, refl, Bool, true, false, [], Option-cases, inl, inr, if◌then◌else◌, suc, ◌++◌, ◌∷◌, not,
}
use iotd.Protocol.Packet.{Packet, accepted}
use iotd.Session.Types.{Runtime}
use iotd.Session.Effect.{Env, TakeoverParams, World, Outcome, send_packet}
use iotd.Router.Index
use iotd.Session.Persist.{delete_saved}
use iotd.Session.Connect.{clear_session, on_takeover}

module _ {S : Type 0} (e : Env S) where
  -- The session after a takeover with a clean session or without.
  abbrev pub taken_runtime : TakeoverParams → Runtime → Runtime
  taken_runtime params r = record r {
    clean_session = params.clean_session;
    keep_alive = params.keep_alive;
    inflight_queue = if params.clean_session then [] else r.inflight_queue;
  }

  clear_session-lem :
      (params : TakeoverParams) (b : Bool) (w : World S)
      → params.clean_session ≡ b
      → let cleared = clear_session e b (record w {
        runtime = record w.runtime {
          clean_session = params.clean_session;
          keep_alive = params.keep_alive;
        };
      }) in
        (cleared.0 ≡ Outcome.ok tt)
        × (cleared.1.runtime ≡ taken_runtime params w.runtime)
        × (cleared.1.router ≡ (if b then Index.unsubscribe_all w.runtime.id w.router else w.router))
  unfolding delete_saved
  clear_session-lem params true w h = elim (Option-cases w.runtime.client_id) [
    | inl n ↦ rw (n, h) (refl, refl, refl)
    | inr (c, s) ↦ rw (s, h) (refl, refl, refl)
  ]
  clear_session-lem params false w h = rw h (refl, refl, refl)

  -- Where the CONNACK can be written, a takeover changes the two parameters that the new client gave;
  -- with a clean session it drops the subscriptions and the messages in flight too. The messages that
  -- wait for PUBREL and the Will message are those of the earlier client in either case.
  pub on_takeover-keeps :
      (params : TakeoverParams) (w : World S)
      → e.accepts params.stream w.written ≡ true
      → let after = on_takeover e params w in
        (after.0 ≡ Outcome.ok tt)
        × (after.1.runtime ≡ taken_runtime params w.runtime)
        × (after.1.router ≡ (
            if params.clean_session then Index.unsubscribe_all w.runtime.id w.router else w.router))
        × (after.1.runtime.inbound_qos2 ≡ w.runtime.inbound_qos2)
        × (after.1.runtime.will_message ≡ w.runtime.will_message)
  unfolding on_takeover send_packet
  on_takeover-keeps params w written =
      let told : World S = record w {
        written = suc w.written;
        sent =
            w.sent
            ++ (
              params.stream,
              Packet.conn_ack
                  (record { session_present = not params.clean_session; return_code = accepted }),
            )
              ∷ [];
      } in
      let done = clear_session-lem params params.clean_session told refl in
      rw written (done.0, done.1, done.2, rw done.1 refl, rw done.1 refl)
