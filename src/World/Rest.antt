-- ===== src/World/Rest.antt =====
-- What an operation on the event store and a draw leave alone: all of the world but the event store.
use fintech_data_platform.Prelude.{String, Option, none, some, List}
use fintech_data_platform.Exec.{Exec, Result, ok, err, Keeps, keeps_rules, if_leaves}
use fintech_data_platform.EventStore.{Db, trigger_passes}
use fintech_data_platform.Library.{Time}
use fintech_data_platform.World.{
  World, Env, RiskFlag, Message, Fault, Draft, transact, build, draw_time, draw_uuid, on_store,
  tick, commit, in_transaction, begun, or_draw_uuid, or_draw_time,
}

module _ (env : Env) (R : List RiskFlag → List (String × String) → List Message → Type 0) where
  -- What holds of the rest of the world.
  abbrev pub OnRest : World → Type 0
  OnRest w = R w.risk_flags w.objects w.messages

  pub on_store-OnRest : {A : Type 0} (m : Exec Db A) → Keeps OnRest (on_store m)
  on_store-OnRest m = record { at = λ w h. h }

  pub draw_uuid-OnRest : Keeps OnRest (draw_uuid env)
  unfolding draw_uuid
  draw_uuid-OnRest = record { at = λ w h. h }

  pub draw_time-OnRest : Keeps OnRest (draw_time env)
  unfolding draw_time
  draw_time-OnRest = record { at = λ w h. h }

  or_draw_uuid-OnRest : (o : Option String) → Keeps OnRest (or_draw_uuid env o)
  or_draw_uuid-OnRest none = draw_uuid-OnRest
  or_draw_uuid-OnRest (some id) = search keeps_rules

  or_draw_time-OnRest : (o : Option Time) → Keeps OnRest (or_draw_time env o)
  or_draw_time-OnRest none = search (keeps_rules, draw_time-OnRest)
  or_draw_time-OnRest (some t) = search keeps_rules

  pub build-OnRest : (d : Draft) → Keeps OnRest (build env d)
  unfolding build
  build-OnRest d = search (keeps_rules, or_draw_uuid-OnRest, or_draw_time-OnRest) depth 12

  module _ {A : Type 0} where
    commit-OnRest :
        (f : Fault) (db : Db) (r : Result A) (w : World) → OnRest w → OnRest (commit env f db r w).1
    commit-OnRest f db (err e) w h = h
    commit-OnRest f db (ok a) w h = if_leaves OnRest (trigger_passes w.store) _ _ (λ _. h) (λ _. h)

    in_transaction-OnRest :
        (f : Fault) (body : Exec World A)
        → Keeps OnRest body
        → Keeps OnRest (in_transaction env f body)
    in_transaction-OnRest Fault.lost body k = record { at = λ w h. h }
    in_transaction-OnRest Fault.fine body k = record {
      at = λ w h.
          commit-OnRest Fault.fine w.store (body (begun env w)).0 (body (begun env w)).1
            (k.at (begun env w) h);
    }
    in_transaction-OnRest Fault.unacked body k = record {
      at = λ w h.
          commit-OnRest Fault.unacked w.store (body (begun env w)).0 (body (begun env w)).1
            (k.at (begun env w) h);
    }

    pub transact-OnRest :
        (body : Exec World A) → Keeps OnRest body → Keeps OnRest (transact env body)
    unfolding transact
    transact-OnRest body k = record {
      at = λ w h. (in_transaction-OnRest (env.fault w.ticks) body k).at (tick w) h;
    }
