-- ===== src/Gossip/System/Invariant.antt =====
-- pkg/gossip/state.go: the invariant of a cluster's histories.
use pico.Prelude.{
  ◌≤◌, ◌≡◌, ◌≢◌, ◌∙◌, refl, sym, ap, subst, inl, inr, GoString, lookup, List, some, arith, ite,
  str_dec, if_pos, if_neg, Elem, All, lookup-insert,
}
use pico.Gossip.Types.{NodeState, Effect}
use pico.Gossip.State.{ClusterState, put_local}
use pico.Gossip.Apply.{apply_digest, apply_delta}
use pico.Gossip.Sync.{Consistent, WellFormed}
use pico.Gossip.Sync.Owner.{Kept, run_op-Kept}
use pico.Gossip.Sync.Nodes.{
  Tracks, Sent, known_version, insert-Tracks, apply_digest-Tracks, apply_delta-Tracks,
  known-apply_digest, known-apply_delta, Sent-later, All-map,
}
use pico.Gossip.System.{
  System, Message, Step, update, learn, send, deliver, Reach, here, next, set_state,
}
use pico.Gossip.System.Keeps.{id-run_op, apply_digest-keeps, apply_delta-keeps}

-- `owner id` is the state that the node `id` has of itself.
pub record Inv (owner : GoString → NodeState) (y : System) : Type 0 where
  pub well : (id : GoString) → WellFormed (owner id)
  pub own : (id : GoString) → lookup id (y.states id).nodes ≡ some (owner id)
  pub local : (id : GoString) → (y.states id).local_id ≡ id
  pub tracks : (id : GoString) → Tracks owner (y.states id)
  pub flying :
      (m : Message)
      → Elem m y.flight
      → Tracks owner m.sender × All (Sent m.sender (y.states m.receiver)) m.delta

-- The owners move on, and copies stay copies.
Tracks-mono :
    (owner owner' : GoString → NodeState) (s : ClusterState)
    → ((j : GoString) (n : NodeState) → Consistent (owner j) n → Consistent (owner' j) n)
    → Tracks owner s
    → Tracks owner' s
Tracks-mono owner owner' s up t = record {
  copies = λ id n h. up id n (t.copies id n h);
  distinct = t.distinct;
  ids = t.ids;
}

-- One node's state is replaced.
module _ (owner owner' : GoString → NodeState) (y : System) (id : GoString) (s : ClusterState)
    (inv : Inv owner y)
    (up : (j : GoString) (n : NodeState) → Consistent (owner j) n → Consistent (owner' j) n)
    (grown : (j : GoString) → known_version (y.states id) j ≤ known_version s j) where
  -- What holds of the new state, and of every other, holds after the replacement.
  at_states {κ} :
      (P : GoString → ClusterState → Type κ)
      → P id s
      → ((j : GoString) → id ≢ j → P j (y.states j))
      → (j : GoString) → P j ((set_state y id s).states j)
  at_states P new old j = elim (str_dec id j) [
    | yes p ↦ subst (P j) (sym (if_pos (str_dec id j) p s (y.states j))) (subst (λ i. P i s) p new)
    | no ne ↦ subst (P j) (sym (if_neg (str_dec id j) ne s (y.states j))) (old j ne)
  ]

  set_state-Inv :
      ((j : GoString) → WellFormed (owner' j))
      → ((j : GoString) → id ≢ j → owner' j ≡ owner j)
      → Tracks owner' s
      → s.local_id ≡ id
      → lookup id s.nodes ≡ some (owner' id)
      → Inv owner' (set_state y id s)
  set_state-Inv well' others t local own = record {
    well = well';
    own =
        at_states (λ j x. lookup j x.nodes ≡ some (owner' j)) own
          (λ j ne. inv.own j ∙ ap some (sym (others j ne)));
    local = at_states (λ j x. x.local_id ≡ j) local (λ j ne. inv.local j);
    tracks =
        at_states (λ j x. Tracks owner' x) t (λ j ne. Tracks-mono owner owner' _ up (inv.tracks j));
    flying = λ m e. (
      Tracks-mono owner owner' m.sender up (inv.flying m e).0,
      at_states (λ j x. All (Sent m.sender (y.states j)) m.delta → All (Sent m.sender x) m.delta)
          (All-map _ _ m.delta (λ d h. Sent-later m.sender (y.states id) s d (grown d.id) h))
          (λ j ne h. h) m.receiver (inv.flying m e).1,
    );
  }

-- The owner of a state updates it.
module _ (owner owner' : GoString → NodeState) (y : System) (id : GoString) (n : NodeState)
    (r : NodeState × List Effect) (inv : Inv owner y) (at : owner id ≡ n) (kept : Kept n r.0)
    (same_id : r.0.id ≡ n.id) (new : owner' id ≡ r.0)
    (others : (j : GoString) → id ≢ j → owner' j ≡ owner j) where
  update_mono : (j : GoString) (c : NodeState) → Consistent (owner j) c → Consistent (owner' j) c
  update_mono j c h = elim (str_dec id j) [
    | yes p ↦
        subst (λ i. Consistent (owner i) c → Consistent (owner' i) c) p
          (λ g.
            subst (λ o. Consistent o c) (sym new)
              (kept.copies c (subst (λ o. Consistent o c) at g)))
          h
    | no ne ↦ subst (λ o. Consistent o c) (sym (others j ne)) h
  ]

  update-well : (j : GoString) → WellFormed (owner' j)
  update-well j = elim (str_dec id j) [
    | yes p ↦ subst (λ i. WellFormed (owner' i)) p (subst WellFormed (sym new) kept.well)
    | no ne ↦ subst WellFormed (sym (others j ne)) (inv.well j)
  ]

  update-grown :
      (j : GoString) → known_version (y.states id) j ≤ known_version (put_local (y.states id) r.0) j
  update-grown j =
      let le = (kept.copies n (subst WellFormed at (inv.well id))).behind in
      ground (
        arith,
        inv.own id,
        inv.local id,
        lookup-insert (y.states id).local_id j r.0 (y.states id).nodes,
      )

  update-Inv : Inv owner' (set_state y id (put_local (y.states id) r.0))
  update-Inv =
      set_state-Inv owner owner' y id (put_local (y.states id) r.0) inv update_mono update-grown
        update-well others
        (insert-Tracks owner' update-well (y.states id) (y.states id).local_id r.0
          (Tracks-mono owner owner' (y.states id) update_mono (inv.tracks id))
          (subst (λ i. Consistent (owner' i) r.0) (sym (inv.local id))
            (subst (λ o. Consistent o r.0) (sym new) kept.well))
          (ground (arith, inv.local id, inv.own id, (inv.tracks id).ids id (owner id))))
        (inv.local id)
        (ground
          (arith, inv.local id, lookup-insert (y.states id).local_id id r.0 (y.states id).nodes))

-- Every step keeps the invariant, for the owners' states after it.
pub Step-Inv :
    {y z : System} (owner : GoString → NodeState)
    → Inv owner y
    → Step y z
    → (owner' : GoString → NodeState) × Inv owner' z
Step-Inv {y} owner inv (update id op n r ok room found done) =
    let at : owner id ≡ n = ground (arith, inv.own id) in
    let owner' = λ (j : GoString). ite (str_dec id j) r.0 (owner j) in
    (
      owner',
      update-Inv owner owner' y id n r inv at
          (run_op-Kept n (subst WellFormed at (inv.well id)) room op r ok done)
          (id-run_op op n r done) (if_pos (str_dec id id) refl r.0 (owner id))
          (λ j ne. if_neg (str_dec id j) ne r.0 (owner j)),
    )
Step-Inv {y} owner inv (learn id ds) =
    let (same, keeps) = apply_digest-keeps ds (y.states id) in
    (
      owner,
      set_state-Inv owner owner y id (apply_digest (y.states id) ds).0 inv (λ j n c. c)
          (known-apply_digest owner inv.well ds (y.states id)) inv.well (λ j ne. refl)
          (apply_digest-Tracks owner inv.well ds (y.states id) (inv.tracks id))
          (same ∙ inv.local id) (keeps id (owner id) (inv.own id)),
    )
Step-Inv {y} owner inv (send from to ds asked) = (
  owner,
  record {
    well = inv.well;
    own = inv.own;
    local = inv.local;
    tracks = inv.tracks;
    flying = λ m e. elim e [
      | inl p ↦
          subst (λ x. Tracks owner x.sender × All (Sent x.sender (y.states x.receiver)) x.delta)
            (sym p) (inv.tracks from, asked)
      | inr old ↦ inv.flying m old
    ];
  },
)
Step-Inv {y} owner inv (deliver m now e) =
    let (t, sent) = inv.flying m e in
    let (same, keeps) = apply_delta-keeps m.delta (y.states m.receiver) now in
    (
      owner,
      set_state-Inv owner owner y m.receiver (apply_delta (y.states m.receiver) now m.delta).0 inv
          (λ j n c. c)
          (λ j.
            known-apply_delta owner inv.well m.sender t m.delta (y.states m.receiver) now j
              (inv.tracks m.receiver) sent)
          inv.well (λ j ne. refl)
          (apply_delta-Tracks owner inv.well m.sender t m.delta (y.states m.receiver) now
            (inv.tracks m.receiver) sent)
          (same ∙ inv.local m.receiver)
          (subst
              (λ i.
                lookup i (apply_delta (y.states m.receiver) now m.delta).0.nodes
                ≡ lookup i (y.states m.receiver).nodes)
              (inv.local m.receiver) keeps
            ∙ inv.own m.receiver),
    )

-- So does every history.
pub Reach-Inv :
    {y z : System} (owner : GoString → NodeState)
    → Inv owner y
    → Reach y z
    → (owner' : GoString → NodeState) × Inv owner' z
Reach-Inv owner inv here = (owner, inv)
Reach-Inv owner inv (next r st) =
    let (owner', inv') = Reach-Inv owner inv r in Step-Inv owner' inv' st
