-- ===== src/Tests/Histories.antt =====
-- A cluster of two nodes: `a` sets a key, `b` learns of `a`, asks, and takes in what `a` sends.
use pico.Prelude.{
  ◌≡◌, refl, GoString, codes, lookup, insert, values, [], ◌∷◌, some, arith, true, false, str_dec,
  inl,
}
use pico.Gossip.Types.{Delta, Digest, gauge, inc}
use pico.Gossip.Detector.{FailureDetector}
use pico.Gossip.Sort.{sort_by_version, insert_by_version}
use pico.Gossip.State.{new_cluster_state}
use pico.Gossip.Delta.{delta_entry, delta, digest, newer}
use pico.Gossip.Apply.{apply_entries, apply_delta, apply_digest}
use pico.Gossip.Sync.Owner.{upsert, new_node-WellFormed}
use pico.Gossip.Sync.Nodes.{Tracks}
use pico.Gossip.Sync.Asked.{exchange-Tracks}
use pico.Gossip.System.{System, initial, update, learn, send, deliver, Reach, here, next}
use pico.Gossip.System.Converge.{start_owner, start-Tracks, copy_current, copy_exact}
use pico.Tests.Replicas.{a_id, a_addr, empty, entry, one, run}

abbrev addr : GoString → GoString
addr id = a_addr

abbrev detector : FailureDetector
detector = record { windows = []; bootstrap_interval = 1; sample_size = 10 }

abbrev asked : Digest
asked = record { id = a_id; addr = a_addr; version = 1; left = false } ∷ []

abbrev sent : Delta
sent = record { id = a_id; addr = a_addr; entries = entry ∷ [] } ∷ []

abbrev start : System
start = initial addr detector

updated : (z : System) × Reach start z
unfolding initial new_cluster_state lookup str_dec sort_by_version values
updated = (
  _,
  next here (
      update a_id (upsert (codes "k") (codes "v")) empty (one, gauge (inc a_id false false) ∷ [])
        (λ p. cc) (omega arith) refl run),
)

history : (z : System) × Reach start z
unfolding updated initial new_cluster_state lookup str_dec insert sort_by_version insert_by_version
    values delta_entry newer apply_digest
history =
    let r = updated.1 in
    let r' = next r (learn (codes "b") asked) in
    let r'' = next r' (
      send a_id (codes "b") sent (
        record {
          state = one;
          held = refl;
          from_version = 0;
          asked = omega arith;
          unsent = [];
          split = refl;
        },
        tt,
      )) in
    (_, next r'' (deliver (record { receiver = codes "b"; sender = _; delta = sent }) 9 (inl refl)))

copy_exact_example : lookup (codes "k") one.entries ≡ lookup (codes "k") one.entries
unfolding history updated initial new_cluster_state lookup str_dec insert sort_by_version
    insert_by_version values delta_entry newer apply_digest apply_delta apply_entries
copy_exact_example =
    copy_exact addr detector history.1 a_id (codes "b") one one refl refl refl (codes "k")

copy_current_example : lookup (codes "k") one.entries ≡ some entry
unfolding history updated initial new_cluster_state lookup str_dec insert sort_by_version
    insert_by_version values delta_entry newer apply_digest apply_delta apply_entries
copy_current_example =
    copy_current addr detector history.1 a_id (codes "b") one one refl refl (codes "k") entry refl
      (omega arith)

exchange-Tracks_example :
    Tracks
      (start_owner addr detector)
      (apply_delta (new_cluster_state (codes "b") a_addr detector) 9 (
        delta
          (new_cluster_state a_id a_addr detector)
          (digest (new_cluster_state (codes "b") a_addr detector))
          true)).0
exchange-Tracks_example =
    exchange-Tracks (start_owner addr detector) (new_cluster_state a_id a_addr detector)
      (new_cluster_state (codes "b") a_addr detector) (λ id. new_node-WellFormed id a_addr)
      (start-Tracks addr detector a_id) (start-Tracks addr detector (codes "b")) 9 true
