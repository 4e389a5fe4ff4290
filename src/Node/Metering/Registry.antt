-- ===== src/Node/Metering/Registry.antt =====
-- The registry of the node's metrics against the record of counts that the other parts are modelled with.
use anycable_go.Base.{ℕ, ◌≡◌, refl, ◌∙◌, ap, subst, String, List, [], ◌∷◌}
use anycable_go.Base.GoMap.{lookup}
use anycable_go.Base.Outcome.{Outcome, ok, ◌>>=◌}
use anycable_go.Metrics.{Metrics, rotate}
use anycable_go.Node.{NodeStats, collect_stats_once}
use anycable_go.Node.Metering.Meters.{
  count_of, shown_of, Meters, new_meters, metered, all_metered, count_after, no_count, last_shown,
}
use anycable_go.Node.Metering.Values.{
  HasCount, HasShown, added, set_one, rotate-HasCount, counters_registered, gauges_registered,
  register_counters-gauges,
}
use anycable_go.Node.Metering.{
  NodeCounter, failed_auths_total, client_msg_total, failed_client_msg_total, broadcast_msg_total,
  failed_broadcast_msg_total, server_msg_total, failed_server_msg_total, data_sent_total,
  data_rcvd_total, counter_name, NodeGauge, goroutines_gauge, mem_sys_gauge, clients_gauge,
  uniq_clients_gauge, streams_gauge, queue_gauge, gauge_name, node_gauges, node_counters,
  register_gauges, register_counters, register_metrics, collect_into, MeterEvent, adds, collects,
  rotates, meter_event, meter_events,
}

-- Each metric stands under its name with its value.
pub record Represents (x : Meters) (m : Metrics) : Type 0 where
  pub counters : (k : NodeCounter) → HasCount m (counter_name k) (count_of x.counts k)
  pub gauges : (g : NodeGauge) → HasShown m (gauge_name g) (x.shown g)

registered_counters :
    (m : Metrics) (k : NodeCounter) → HasCount (register_metrics m) (counter_name k) 0
unfolding register_metrics
registered_counters m k =
    let all = counters_registered node_counters (register_gauges node_gauges m) in
    elim k
      as (λ j.
        HasCount (register_counters node_counters (register_gauges node_gauges m)) (counter_name j)
          0) [
            | failed_auths_total ↦ all.0
            | client_msg_total ↦ all.1.0
            | failed_client_msg_total ↦ all.1.1.0
            | broadcast_msg_total ↦ all.1.1.1.0
            | failed_broadcast_msg_total ↦ all.1.1.1.1.0
            | server_msg_total ↦ all.1.1.1.1.1.0
            | failed_server_msg_total ↦ all.1.1.1.1.1.1.0
            | data_sent_total ↦ all.1.1.1.1.1.1.1.0
            | data_rcvd_total ↦ all.1.1.1.1.1.1.1.1.0
          ]

registered_gauges :
    (m : Metrics) (g : NodeGauge) → HasShown (register_gauges node_gauges m) (gauge_name g) 0
registered_gauges m g =
    let all = gauges_registered node_gauges m in
    elim g as (λ j. HasShown (register_gauges node_gauges m) (gauge_name j) 0) [
      | goroutines_gauge ↦ all.0
      | mem_sys_gauge ↦ all.1.0
      | clients_gauge ↦ all.1.1.0
      | uniq_clients_gauge ↦ all.1.1.1.0
      | streams_gauge ↦ all.1.1.1.1.0
      | queue_gauge ↦ all.1.1.1.1.1.0
    ]

shown_kept :
    (m m' : Metrics) (j : String) (v : ℕ) → m'.gauges ≡ m.gauges → HasShown m j v → HasShown m' j v
shown_kept m m' j v same (g, at_j, e) = (g, ap (λ z. lookup j z) same ∙ at_j, e)

count_kept :
    (m m' : Metrics) (j : String) (v : ℕ)
    → m'.counters ≡ m.counters
    → HasCount m j v
    → HasCount m' j v
count_kept m m' j v same (c, at_j, e) = (c, ap (λ z. lookup j z) same ∙ at_j, e)

register_metrics-Represents : (m : Metrics) → Represents new_meters (register_metrics m)
unfolding register_metrics
register_metrics-Represents m =
    let with_gauges = register_gauges node_gauges m in
    record {
      counters = λ k.
          subst (HasCount (register_metrics m) (counter_name k)) (no_count k)
            (registered_counters m k);
      gauges = λ g.
          shown_kept with_gauges (register_metrics m) (gauge_name g) 0
            (register_counters-gauges node_counters with_gauges) (registered_gauges m g);
    }

bind_ok :
    {A B : Type 0} (r : Outcome A) (f : A → Outcome B) {a : A} {b : B}
    → r ≡ ok a
    → f a ≡ ok b
    → (r >>= f) ≡ ok b
bind_ok r f e e' = ap (λ z. z >>= f) e ∙ e'

collected :
    (goroutines mem_sys : ℕ) (s : NodeStats) (x : Meters) (m : Metrics)
    → Represents x m
    → (m' : Metrics) × (collect_into goroutines mem_sys s m ≡ ok m')
      × Represents (record x { shown = shown_of goroutines mem_sys s }) m'
unfolding collect_into
collected goroutines mem_sys s x m h =
    let (m1, e1, (s1, c1)) = set_one "goroutines_num" goroutines _ m (h.gauges goroutines_gauge) in
    let (m2, e2, (s2, c2)) =
      set_one "mem_sys_bytes" mem_sys _ m1 (s1 "mem_sys_bytes" _ (h.gauges mem_sys_gauge)) in
    let (m3, e3, (s3, c3)) =
      set_one "clients_num" s.clients_num _ m2
        (s2 "clients_num" _ (s1 "clients_num" _ (h.gauges clients_gauge))) in
    let pass3 = λ (j : String) (v : ℕ) (at_j : HasShown m j v). s3 j _ (s2 j _ (s1 j v at_j)) in
    let (m4, e4, (s4, c4)) =
      set_one "clients_uniq_num" s.uniq_clients_num _ m3
        (pass3 "clients_uniq_num" _ (h.gauges uniq_clients_gauge)) in
    let (m5, e5, (s5, c5)) =
      set_one "broadcast_streams_num" s.streams_num _ m4
        (s4 "broadcast_streams_num" _ (pass3 "broadcast_streams_num" _ (h.gauges streams_gauge))) in
    let pass5 = λ (j : String) (v : ℕ) (at_j : HasShown m j v). s5 j _ (s4 j _ (pass3 j v at_j)) in
    let (m6, e6, (s6, c6)) =
      set_one "disconnect_queue_size" s.disconnect_queue_size _ m5
        (pass5 "disconnect_queue_size" _ (h.gauges queue_gauge)) in
    (
      m6,
      bind_ok _ _ (bind_ok _ _ (bind_ok _ _ (bind_ok _ _ (bind_ok _ _ e1 e2) e3) e4) e5) e6,
      record {
        counters =
            λ k. count_kept m m6 (counter_name k) _ (c6 ∙ c5 ∙ c4 ∙ c3 ∙ c2 ∙ c1) (h.counters k);
        gauges = λ g.
            subst (HasShown m6 (gauge_name g)) (last_shown goroutines mem_sys s (x.shown g) g)
              (s6 (gauge_name g) _ (pass5 (gauge_name g) (x.shown g) (h.gauges g)));
      },
    )

event-Represents :
    (e : MeterEvent) (x : Meters) (m : Metrics)
    → Represents x m
    → (m' : Metrics) × (meter_event e m ≡ ok m') × Represents (metered e x) m'
unfolding meter_event rotate
event-Represents (adds k n) x m h =
    let (m', e, (adds_to, same)) = added (counter_name k) n _ m (h.counters k) in
    (
      m',
      e,
      record {
        counters = λ j.
            subst (HasCount m' (counter_name j)) (count_after k n x.counts j)
              (adds_to (counter_name j) _ (h.counters j));
        gauges = λ g. shown_kept m m' (gauge_name g) _ same (h.gauges g);
      },
    )
event-Represents (collects goroutines mem_sys n) x m h =
    collected goroutines mem_sys (collect_stats_once n) x m h
event-Represents rotates x m h = (
  rotate m,
  refl,
  record {
    counters = λ k. rotate-HasCount (counter_name k) _ m (h.counters k);
    gauges = λ g. shown_kept m (rotate m) (gauge_name g) _ refl (h.gauges g);
  },
)

events-Represent :
    (es : List MeterEvent) (x : Meters) (m : Metrics)
    → Represents x m
    → (m' : Metrics) × (meter_events es m ≡ ok m') × Represents (all_metered es x) m'
unfolding meter_events
events-Represent [] x m h = (m, refl, h)
events-Represent (e ∷ es) x m h =
    let (m1, e1, h1) = event-Represents e x m h in
    let (m2, e2, h2) = events-Represent es (metered e x) m1 h1 in (m2, bind_ok _ _ e1 e2, h2)

-- Once its metrics are registered, whatever stood in the registry before, the node never uses a name
-- that is not there, so that nothing panics: after any additions, collections and rotations each
-- counter has in the registry, under its name, the value that it has in the record of counts, and each gauge that
-- of the last collection.
pub meter_events-Represents :
    (es : List MeterEvent) (m : Metrics)
    → (m' : Metrics) × (meter_events es (register_metrics m) ≡ ok m')
      × Represents (all_metered es new_meters) m'
meter_events-Represents es m =
    events-Represent es new_meters (register_metrics m) (register_metrics-Represents m)
