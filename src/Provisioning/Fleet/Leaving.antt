-- ===== src/Provisioning/Fleet/Leaving.antt =====
-- src/provisioning/mod.rs: a provisioner is dropped without a panic.
use rustot.Prelude.{◌≡◌, ◌≢◌, refl, List, [], ◌∷◌, Outcome, ok, err, panic, arith, Str}
use rustot.Prelude.Stateful.{Exec}
use rustot.Deps.{Deps}
use rustot.Mqtt.{Mqtt, each, chunks, unsubscribe_all, given, on_mqtt}
use rustot.Provisioning.Error.{Error}
use rustot.Provisioning.Topics.{format}
use rustot.Provisioning.Subscriptions.{Unsubscribe, unsubscribe_topics, send_unsubscribe}
use rustot.Provisioning.Fleet
use rustot.Provisioning.Fleet.{FleetProvisioner, dropped}

each_ok :
    {S E A : Type 0} (call : A → Exec S E (Unit {0})) (xs : List A) (s : S)
    → ((x : A) (t : S) → (call x t).0 ≡ ok tt)
    → (each call xs s).0 ≡ ok tt
unfolding each
each_ok call [] s h = refl
each_ok call (x ∷ xs) s h = rw (h x s) (each_ok call xs (call x s).1 h)

topics_end : (d : Deps) (ts : Unsubscribe) → unsubscribe_topics d ts ≢ panic
unfolding unsubscribe_topics format
topics_end d [] = ground arith
topics_end d (t ∷ ts) = ground (arith, topics_end d ts)

dropped_ok : {W : Type 0} (r : Outcome Error (Unit {0}) × W) → r.0 ≢ panic → (dropped r).0 ≡ ok tt
unfolding dropped
dropped_ok (ok a, w) n = refl
dropped_ok (err e, w) n = refl
dropped_ok (panic, w) n = absurd (n refl)

module _ {d : Deps} (mqtt : Mqtt d)
    (unsubscribed : (ts : List Str) (w : d.World) → (mqtt.unsubscribe ts w).0 ≡ ok tt) where
  given_ends :
      (r : Outcome Error (List Str)) (w : d.World)
      → r ≢ panic
      → (given r (unsubscribe_all Error.mqtt mqtt) w).0 ≢ panic
  unfolding unsubscribe_all
  given_ends (ok ts) w n e =
      let sent =
        each_ok (λ (t : List Str). on_mqtt Error.mqtt (mqtt.unsubscribe t)) (chunks 5 ts) w
          (λ t v. rw (unsubscribed t v)) in
      ground (arith, sent, e)
  given_ends (err x) w n e = ground (arith, e)
  given_ends panic w n e = n refl

  send_ends : (ts : Unsubscribe) (w : d.World) → (send_unsubscribe mqtt ts w).0 ≢ panic
  unfolding send_unsubscribe
  send_ends [] w e = ground (arith, e)
  send_ends (t ∷ ts) w e = given_ends (unsubscribe_topics d (t ∷ ts)) w (topics_end d (t ∷ ts)) e

  -- Where the client gives up whatever topics it is given, dropping a provisioner ends without a panic.
  pub drop_ok : (p : FleetProvisioner) (w : d.World) → (Fleet.drop mqtt p w).0 ≡ ok tt
  unfolding Fleet.drop
  drop_ok p w = dropped_ok (send_unsubscribe mqtt _ w) (send_ends _ w)
