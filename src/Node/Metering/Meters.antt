-- ===== src/Node/Metering/Meters.antt =====
-- The metrics of node/node.go without their names: the record of counts that the other parts are
-- modelled with, and what the gauges are to show.
use anycable_go.Base.{ℕ, ◌%◌, ◌≡◌, refl, ◌∙◌, sym, ap, String, ◌=s=◌, List, [], ◌∷◌, if◌then◌else◌}
use anycable_go.Metrics.{add_u64, u64_mod}
use anycable_go.Node.{NodeCounts, no_counts, NodeStats, collect_stats_once}
use anycable_go.Node.Metering.{
  NodeCounter, failed_auths_total, client_msg_total, failed_client_msg_total, broadcast_msg_total,
  failed_broadcast_msg_total, server_msg_total, failed_server_msg_total, data_sent_total,
  data_rcvd_total, counter_name, NodeGauge, goroutines_gauge, mem_sys_gauge, clients_gauge,
  uniq_clients_gauge, streams_gauge, queue_gauge, gauge_name, MeterEvent, adds, collects, rotates,
}

abbrev pub count_of : NodeCounts → NodeCounter → ℕ
count_of c failed_auths_total = c.failed_auths
count_of c client_msg_total = c.received_msg
count_of c failed_client_msg_total = c.failed_command_received
count_of c broadcast_msg_total = c.broadcast_msg
count_of c failed_broadcast_msg_total = c.unknown_broadcast
count_of c server_msg_total = c.sent_msg
count_of c failed_server_msg_total = c.failed_sent
count_of c data_sent_total = c.data_sent
count_of c data_rcvd_total = c.data_received

abbrev pub add_count : NodeCounter → ℕ → NodeCounts → NodeCounts
add_count failed_auths_total n c = record c { failed_auths = add_u64 c.failed_auths n }
add_count client_msg_total n c = record c { received_msg = add_u64 c.received_msg n }
add_count failed_client_msg_total n c = record c {
  failed_command_received = add_u64 c.failed_command_received n;
}
add_count broadcast_msg_total n c = record c { broadcast_msg = add_u64 c.broadcast_msg n }
add_count failed_broadcast_msg_total n c = record c {
  unknown_broadcast = add_u64 c.unknown_broadcast n;
}
add_count server_msg_total n c = record c { sent_msg = add_u64 c.sent_msg n }
add_count failed_server_msg_total n c = record c { failed_sent = add_u64 c.failed_sent n }
add_count data_sent_total n c = record c { data_sent = add_u64 c.data_sent n }
add_count data_rcvd_total n c = record c { data_received = add_u64 c.data_received n }

-- What `collectStatsOnce` is to show.
abbrev pub shown_of : ℕ → ℕ → NodeStats → NodeGauge → ℕ
shown_of goroutines mem_sys s goroutines_gauge = goroutines % u64_mod
shown_of goroutines mem_sys s mem_sys_gauge = mem_sys % u64_mod
shown_of goroutines mem_sys s clients_gauge = s.clients_num % u64_mod
shown_of goroutines mem_sys s uniq_clients_gauge = s.uniq_clients_num % u64_mod
shown_of goroutines mem_sys s streams_gauge = s.streams_num % u64_mod
shown_of goroutines mem_sys s queue_gauge = s.disconnect_queue_size % u64_mod

-- The metrics without their names.
pub record Meters : Type 0 where
  pub counts : NodeCounts
  pub shown : NodeGauge → ℕ

abbrev pub new_meters : Meters
new_meters = record { counts = no_counts; shown = λ g. 0 }

abbrev pub metered : MeterEvent → Meters → Meters
metered (adds k n) x = record x { counts = add_count k n x.counts }
metered (collects goroutines mem_sys n) x = record x {
  shown = shown_of goroutines mem_sys (collect_stats_once n);
}
metered rotates x = x

abbrev pub all_metered : List MeterEvent → Meters → Meters
all_metered [] x = x
all_metered (e ∷ es) x = all_metered es (metered e x)

-- The record with the counts of a function.
abbrev counted : (NodeCounter → ℕ) → NodeCounts
counted f = record {
  failed_auths = f failed_auths_total;
  received_msg = f client_msg_total;
  failed_command_received = f failed_client_msg_total;
  broadcast_msg = f broadcast_msg_total;
  unknown_broadcast = f failed_broadcast_msg_total;
  sent_msg = f server_msg_total;
  failed_sent = f failed_server_msg_total;
  data_sent = f data_sent_total;
  data_received = f data_rcvd_total;
}

count_of-counted : (f : NodeCounter → ℕ) (k : NodeCounter) → count_of (counted f) k ≡ f k
count_of-counted f failed_auths_total = refl
count_of-counted f client_msg_total = refl
count_of-counted f failed_client_msg_total = refl
count_of-counted f broadcast_msg_total = refl
count_of-counted f failed_broadcast_msg_total = refl
count_of-counted f server_msg_total = refl
count_of-counted f failed_server_msg_total = refl
count_of-counted f data_sent_total = refl
count_of-counted f data_rcvd_total = refl

abbrev pub added_to : NodeCounter → ℕ → NodeCounts → NodeCounter → ℕ
added_to k n c j =
    if counter_name k =s= counter_name j then add_u64 (count_of c j) n else count_of c j

add_count-counted :
    (k : NodeCounter) (n : ℕ) (c : NodeCounts) → add_count k n c ≡ counted (added_to k n c)
add_count-counted failed_auths_total n c = refl
add_count-counted client_msg_total n c = refl
add_count-counted failed_client_msg_total n c = refl
add_count-counted broadcast_msg_total n c = refl
add_count-counted failed_broadcast_msg_total n c = refl
add_count-counted server_msg_total n c = refl
add_count-counted failed_server_msg_total n c = refl
add_count-counted data_sent_total n c = refl
add_count-counted data_rcvd_total n c = refl

pub count_after :
    (k : NodeCounter) (n : ℕ) (c : NodeCounts) (j : NodeCounter)
    → added_to k n c j ≡ count_of (add_count k n c) j
count_after k n c j =
    sym (ap (λ z. count_of z j) (add_count-counted k n c) ∙ count_of-counted (added_to k n c) j)

pub no_count : (k : NodeCounter) → 0 ≡ count_of no_counts k
no_count failed_auths_total = refl
no_count client_msg_total = refl
no_count failed_client_msg_total = refl
no_count broadcast_msg_total = refl
no_count failed_broadcast_msg_total = refl
no_count server_msg_total = refl
no_count failed_server_msg_total = refl
no_count data_sent_total = refl
no_count data_rcvd_total = refl

-- The last of the six values that is set under a gauge's name.
abbrev pub last_set : ℕ → ℕ → NodeStats → String → ℕ → ℕ
last_set goroutines mem_sys s j v =
    let v1 = if "goroutines_num" =s= j then goroutines % u64_mod else v in
    let v2 = if "mem_sys_bytes" =s= j then mem_sys % u64_mod else v1 in
    let v3 = if "clients_num" =s= j then s.clients_num % u64_mod else v2 in
    let v4 = if "clients_uniq_num" =s= j then s.uniq_clients_num % u64_mod else v3 in
    let v5 = if "broadcast_streams_num" =s= j then s.streams_num % u64_mod else v4 in
    if "disconnect_queue_size" =s= j then s.disconnect_queue_size % u64_mod else v5

pub last_shown :
    (goroutines mem_sys : ℕ) (s : NodeStats) (v : ℕ) (g : NodeGauge)
    → last_set goroutines mem_sys s (gauge_name g) v ≡ shown_of goroutines mem_sys s g
last_shown goroutines mem_sys s v goroutines_gauge = refl
last_shown goroutines mem_sys s v mem_sys_gauge = refl
last_shown goroutines mem_sys s v clients_gauge = refl
last_shown goroutines mem_sys s v uniq_clients_gauge = refl
last_shown goroutines mem_sys s v streams_gauge = refl
last_shown goroutines mem_sys s v queue_gauge = refl
