-- ===== src/Gossip/Protocol/Encoding.antt =====
-- pkg/gossip/protocol.go with pkg/gossip/state.go: the deltas of a node, through a packet.
use pico.Prelude.{◌∙◌, sym, ap, inl, inr, [], ◌∷◌, ◌++◌, All, append_assoc}
use pico.Gossip.Types.{Delta, DeltaEntry}
use pico.Gossip.State.{ClusterState}
use pico.Gossip.Sync.Nodes.{Sent}
use pico.Gossip.Protocol.Parts.{Front, IsPart}

-- A front part of what is sent for a node, of what the node's delta holds.
Sent-Front : (b c : ClusterState) (d d' : DeltaEntry) → Front d d' → Sent b c d → Sent b c d'
Sent-Front b c d d' p s = record {
  state = s.state;
  held = rw p.same_id s.held;
  from_version = s.from_version;
  asked = rw p.same_id s.asked;
  unsent = p.unsent ++ s.unsent;
  split =
      sym (append_assoc d'.entries p.unsent s.unsent) ∙ ap (λ es. es ++ s.unsent) p.split ∙ s.split;
}

pub IsPart-Sent :
    (b c : ClusterState) (ds ds' : Delta) → IsPart ds ds' → All (Sent b c) ds → All (Sent b c) ds'
IsPart-Sent b c ds [] part all = tt
IsPart-Sent b c [] (d' ∷ ds') part all = absurd part
IsPart-Sent b c (d ∷ ds) (d' ∷ ds') (p, next) (s, all) = (
  Sent-Front b c d d' p s,
  elim next [ inl (whole, part) ↦ IsPart-Sent b c ds ds' part all | inr nothing ↦ rw nothing tt ],
)
