-- ===== src/Gossip/System/Converge.antt =====
-- pkg/gossip/state.go: what a node has of the others in histories from the start.
use pico.Prelude.{◌≤◌, ◌≡◌, refl, sym, subst, GoString, lookup, some, arith, str_dec, if_pos}
use pico.Gossip.Types.{Entry, NodeState}
use pico.Gossip.Detector.{FailureDetector}
use pico.Gossip.State.{new_cluster_state, new_node}
use pico.Gossip.Sync.{Consistent, WellFormed}
use pico.Gossip.Sync.Converge.{Consistent-exact}
use pico.Gossip.Sync.Owner.{new_node-WellFormed}
use pico.Gossip.Sync.Nodes.{Tracks}
use pico.Gossip.System.{System, initial, Reach}
use pico.Gossip.System.Invariant.{Inv, Reach-Inv}

module _ (addr : GoString → GoString) (detector : FailureDetector) where
  abbrev pub start_owner : GoString → NodeState
  start_owner id = new_node id (addr id)

  pub start-Tracks : (id : GoString) → Tracks start_owner (new_cluster_state id (addr id) detector)
  unfolding new_cluster_state lookup
  start-Tracks id = record {
    copies = λ k n h. elim (str_dec id k) [
      | yes p ↦
          let same : n ≡ new_node id (addr id) = ground arith in
          subst (Consistent (start_owner k)) (sym same) (
            subst (λ j. Consistent (start_owner j) (new_node id (addr id))) p
              (new_node-WellFormed id (addr id)))
      | no ne ↦ absurd (ground arith)
    ];
    distinct = (refl, tt);
    ids = λ k n h. ground arith;
  }

  initial-Inv : Inv start_owner (initial addr detector)
  unfolding initial new_cluster_state lookup
  initial-Inv = record {
    well = λ id. new_node-WellFormed id (addr id);
    own = λ id. if_pos (str_dec id id) refl _ _;
    local = λ id. refl;
    tracks = start-Tracks;
    flying = λ m e. absurd e;
  }

  module _ {z : System} (history : Reach (initial addr detector) z) (a b : GoString)
      (o c : NodeState) (own : lookup a (z.states a).nodes ≡ some o)
      (copy : lookup a (z.states b).nodes ≡ some c) where
    consistent : Consistent o c × WellFormed o
    consistent =
        let (owner, inv) = Reach-Inv start_owner initial-Inv history in
        let at : owner a ≡ o = ground (arith, inv.own a) in
        (
          subst (λ x. Consistent x c) at ((inv.tracks b).copies a c copy),
          subst WellFormed at (inv.well a),
        )

    -- In every such history, a copy holds each entry of its owner whose version is at most the
    -- copy's.
    pub copy_current :
        (k : GoString) (e : Entry)
        → lookup k o.entries ≡ some e
        → e.version ≤ c.version
        → lookup k c.entries ≡ some e
    copy_current = consistent.0.current

    -- In every history from the start, of updates that keep off the compaction key and have room
    -- for their versions, of digests, and of deltas cut off, lost, late or repeated: a copy that
    -- has its owner's version holds exactly the owner's entries.
    pub copy_exact :
        c.version ≡ o.version → (k : GoString) → lookup k c.entries ≡ lookup k o.entries
    copy_exact = Consistent-exact o c consistent.1 consistent.0
