-- ===== src/Gossip/Decided.antt =====
-- pkg/gossip/state.go: what UpdateLiveness decides of every node.
use pico.Prelude.{
  ℕ, ◌+◌, ◌-◌, ◌*◌, ◌^◌, ◌%◌, ◌∙◌, ◌↔◌, ap, min, Option-cases, ◌<◌, ◌≡◌, ◌≢◌, ◌⊎◌, refl, subst, inl,
  inr, GoString, GoMap, lookup, List, [], ◌∷◌, some, Bool, true, false, arith, str_dec, Bool-cases,
  dec_lt, sym, if◌then◌else◌, ◌++◌,
}
use pico.Gossip.Types.{Time, NodeState, Effect, node_expiry}
use pico.Gossip.State.{ClusterState}
use pico.Gossip.Detector.{ArrivalWindow, Mean, Suspicion, FailureDetector, exceeds, time_sub}
use pico.Gossip.Liveness.{is_skipped, set_liveness, update_nodes, update_liveness}
use pico.Gossip.Suspicion.{IsReady, IsWindow, suspicion_level-IsReady}

-- The expiry that a decision leaves: a node that becomes unreachable is given a minute.
abbrev pub expiry_after : NodeState → Time → Bool → Time
expiry_after n now true = if n.unreachable then n.expiry else now + node_expiry
expiry_after n now false = if n.unreachable then 0 else n.expiry

abbrev pub Keeps : FailureDetector → FailureDetector → Type 0
Keeps d d' =
    (id : GoString) (w : ArrivalWindow)
    → lookup id d.windows ≡ some w
    → lookup id d'.windows ≡ some w

-- The detector has the windows that it had, and others that are opened now.
abbrev Follows : FailureDetector → Time → FailureDetector → Type 0
Follows d now d' =
    Keeps d d'
    × ((id : GoString) (w : ArrivalWindow) → lookup id d'.windows ≡ some w → IsWindow d now id w)
    × (d'.bootstrap_interval ≡ d.bootstrap_interval)

-- More than `threshold` times the mean interval has passed since the last timestamp; a difference of
-- times is at most 2 ^ 63 - 1.
abbrev pub IsSuspect : ℕ → Time → ArrivalWindow → Type 0
IsSuspect threshold now w =
    (w.last_timestamp < now)
    × (threshold * w.intervals.mean.total
        < min (now - w.last_timestamp) (2 ^ 63 - 1) * w.intervals.mean.count)

-- The local node and one that left stay as they are; of any other, the window decides that the
-- detector had before, or that it opens now if it had none.
abbrev pub IsDecided :
    GoString → ℕ → Time → FailureDetector → FailureDetector → NodeState → NodeState → Type 0
IsDecided local_id threshold now d d' n n' =
    (((n.id ≡ local_id) ⊎ (n.left ≡ true)) × (n' ≡ n))
    ⊎ ((w : ArrivalWindow) × (n.id ≢ local_id)
        × (n.left ≡ false)
        × IsWindow d now n.id w
        × (lookup n.id d'.windows ≡ some w)
        × ((n'.unreachable ≡ true) ↔ IsSuspect threshold now w)
        × (n'.expiry ≡ expiry_after n now n'.unreachable)
        × (n'.entries ≡ n.entries))

skipped-why :
    (local_id : GoString) (n : NodeState)
    → is_skipped local_id n ≡ true
    → (n.id ≡ local_id) ⊎ (n.left ≡ true)
skipped-why local_id n skipped = elim (str_dec n.id local_id) [
  | yes p ↦ inl p
  | no ne ↦ inr (ground (arith, skipped, ne))
]

judged-why :
    (local_id : GoString) (n : NodeState)
    → is_skipped local_id n ≡ false
    → (n.id ≢ local_id) × (n.left ≡ false)
judged-why local_id n judged = elim (str_dec n.id local_id) [
  | yes p ↦ absurd (ground (arith, judged, p))
  | no ne ↦ (ne, ground (arith, judged, ne))
]

exceeds-after :
    (last now threshold : ℕ) (mean : Mean)
    → (exceeds (record { delta = time_sub now last; mean = mean }) threshold ≡ true)
      ↔ ((last < now) × (threshold * mean.total < min (now - last) (2 ^ 63 - 1) * mean.count))
unfolding exceeds
exceeds-after last now threshold mean = elim (dec_lt last now) [
  | yes lt ↦ ((λ h. ground (arith, h, lt)), λ h. ground (arith, h, lt))
  | no ge ↦ ((λ h. absurd (ground (arith, h, ge))), λ h. absurd (ge h.0))
]

exceeds-IsSuspect :
    (w : ArrivalWindow) (now threshold : ℕ) (level : Suspicion)
    → level ≡ record { delta = time_sub now w.last_timestamp; mean = w.intervals.mean }
    → (exceeds level threshold ≡ true) ↔ IsSuspect threshold now w
exceeds-IsSuspect w now threshold level is =
    subst (λ l. (exceeds l threshold ≡ true) ↔ IsSuspect threshold now w) (sym is)
      (exceeds-after w.last_timestamp now threshold w.intervals.mean)

-- A window of a detector that follows another is one of that.
IsWindow-before :
    (d d' : FailureDetector) (now : Time) (id : GoString) (w : ArrivalWindow)
    → Follows d now d'
    → IsWindow d' now id w
    → IsWindow d now id w
IsWindow-before d d' now id w (keeps, from, same) (inl found) = from id w found
IsWindow-before d d' now id w (keeps, from, same) (inr (missing, (at, mean))) =
    elim (Option-cases (lookup id d.windows)) [
      | inl none_before ↦
          inr (none_before, (at, mean ∙ ap (λ b. record { total = b % 2 ^ 64; count = 1 }) same))
      | inr (x, found) ↦ absurd (ground (arith, missing, keeps id x found))
    ]

-- What SuspicionLevelAt does to a detector that follows another.
Follows-level :
    (d d' d1 : FailureDetector) (now : Time) (id : GoString) (w : ArrivalWindow)
    → Follows d now d'
    → IsWindow d now id w
    → Keeps d' d1
    → ((j : GoString)
        → (lookup j d1.windows ≡ lookup j d'.windows) ⊎ ((j ≡ id) × (lookup j d1.windows ≡ some w)))
    → d1.bootstrap_interval ≡ d'.bootstrap_interval
    → Follows d now d1
Follows-level d d' d1 now id w (keeps, from, same) window keeps1 either same1 = (
  (λ j x h. keeps1 j x (keeps j x h)),
  (λ j x found. elim (either j) [
    | inl kept ↦ from j x (sym kept ∙ found)
    | inr (p, set) ↦
        let is : w ≡ x = ground (arith, set, found) in
        subst (λ y. IsWindow d now j y) is (subst (λ y. IsWindow d now y w) (sym p) window)
  ]),
  same1 ∙ same,
)

module _ (local_id : GoString) (threshold : ℕ) (now : Time) (later : 0 < now)
    (d0 : FailureDetector) where
  set_liveness_lem :
      (n : NodeState) (suspected : Bool)
      → ((set_liveness n now suspected).0.unreachable ≡ suspected)
        × ((set_liveness n now suspected).0.expiry ≡ expiry_after n now suspected)
        × ((set_liveness n now suspected).0.entries ≡ n.entries)
  unfolding set_liveness
  set_liveness_lem n true = ground arith
  set_liveness_lem n false = ground arith

  abbrev Decides : FailureDetector → GoMap NodeState → GoMap NodeState → Type 0
  Decides d m m' =
      (k : GoString) (n : NodeState)
      → lookup k m ≡ some n
      → (n' : NodeState) × (lookup k m' ≡ some n') × IsDecided local_id threshold now d0 d n n'

  Decides-cons :
      (d : FailureDetector) (k : GoString) (n n' : NodeState) (m m' : GoMap NodeState)
      → IsDecided local_id threshold now d0 d n n'
      → Decides d m m'
      → Decides d ((k, n) ∷ m) ((k, n') ∷ m')
  unfolding lookup
  Decides-cons d k n n' m m' head tail j x found = elim (str_dec k j) [
    | yes p ↦ (
      n',
      ground arith,
      subst (λ y. IsDecided local_id threshold now d0 d y n') (ground arith) head,
    )
    | no ne ↦ let (x', at, decided) = tail j x (ground arith) in (x', ground arith, decided)
  ]

  nothing_found : (k : GoString) (n : NodeState) → lookup k [] ≢ some n
  unfolding lookup
  nothing_found k n h = cc

  judged-IsDecided :
      (d : FailureDetector) (n : NodeState) (w : ArrivalWindow) (level : Suspicion)
      → is_skipped local_id n ≡ false
      → IsWindow d0 now n.id w
      → lookup n.id d.windows ≡ some w
      → level ≡ record { delta = time_sub now w.last_timestamp; mean = w.intervals.mean }
      → IsDecided local_id threshold now d0 d n (set_liveness n now (exceeds level threshold)).0
  judged-IsDecided d n w level judged window at is =
      let (unreachable, expiry, entries) = set_liveness_lem n (exceeds level threshold) in
      let (other, stays) = judged-why local_id n judged in
      let (to, from) = exceeds-IsSuspect w now threshold level is in
      inr (
        w,
        other,
        stays,
        window,
        at,
        ((λ h. to (sym unreachable ∙ h)), λ h. unreachable ∙ from h),
        expiry ∙ ap (λ b. expiry_after n now b) (sym unreachable),
        entries,
      )

  pub update_nodes_lem :
      (m : GoMap NodeState) (d : FailureDetector)
      → IsReady d
      → Follows d0 now d
      → (d' : FailureDetector) × (m' : GoMap NodeState) × (effects : List Effect) × (update_nodes
            local_id d threshold now m
          ≡ some (d', m', effects))
        × IsReady d'
        × Keeps d d'
        × Follows d0 now d'
        × Decides d' m m'
  unfolding update_nodes
  update_nodes_lem [] d ready follows =
      (d, [], [], refl, ready, (λ id w h. h), follows, λ k n h. absurd (nothing_found k n h))
  update_nodes_lem ((k, n) ∷ m) d ready follows = elim (Bool-cases (is_skipped local_id n)) [
    | inl skipped ↦
        let (d', m', effects, run, ready', keeps, follows', decides) =
          update_nodes_lem m d ready follows in
        (
          d',
          (k, n) ∷ m',
          effects,
          rw (update_nodes, skipped, run) refl,
          ready',
          keeps,
          follows',
          Decides-cons d' k n n m m' (inl (skipped-why local_id n skipped, refl)) decides,
        )
    | inr judged ↦
        let (d1, w, level, step, ready1, at, is, keeps1, window, either, same) =
          suspicion_level-IsReady d now ready later n.id in
        let window0 = IsWindow-before d0 d now n.id w follows window in
        let follows1 = Follows-level d0 d d1 now n.id w follows window0 keeps1 either same in
        let (d', m', effects, run, ready', keeps, follows', decides) =
          update_nodes_lem m d1 ready1 follows1 in
        let done = set_liveness n now (exceeds level threshold) in
        (
          d',
          (k, done.0) ∷ m',
          done.1 ++ effects,
          rw (update_nodes, judged, step, run) refl,
          ready',
          (λ id x h. keeps id x (keeps1 id x h)),
          follows',
          Decides-cons d' k n done.0 m m'
              (judged-IsDecided d' n w level judged window0 (keeps n.id w at) is) decides,
        )
  ]

-- If every window of the detector has a sample and a positive mean, new windows have room and a
-- positive bootstrap interval, and the clock is past 0, UpdateLiveness does not panic and leaves
-- such a detector. The local node and those that left stay as they are. Any other node is judged
-- by the window that the detector had for it, or, if it had none, by one that is opened now with
-- the bootstrap interval, and has that window afterwards: the node is unreachable exactly when
-- the time since the window's last timestamp is more than the threshold times its mean interval.
-- Its expiry is set to a minute from now when it becomes unreachable and cleared when it becomes
-- reachable.
pub update_liveness_lem :
    (s : ClusterState) (threshold : ℕ) (now : Time)
    → IsReady s.failure_detector
    → 0 < now
    → (s' : ClusterState) × (effects : List Effect) × (update_liveness s threshold now
        ≡ some (s', effects))
      × IsReady s'.failure_detector
      × ((k : GoString) (n : NodeState)
          → lookup k s.nodes ≡ some n
          → (n' : NodeState) × (lookup k s'.nodes ≡ some n')
            × IsDecided s.local_id threshold now s.failure_detector s'.failure_detector n n')
unfolding update_liveness
update_liveness_lem s threshold now ready later =
    let same : Follows s.failure_detector now s.failure_detector =
      ((λ id w h. h), (λ id w h. inl h), refl) in
    let (d', m', effects, run, ready', keeps, follows, decides) =
      update_nodes_lem s.local_id threshold now later s.failure_detector s.nodes s.failure_detector
        ready same in
    (record s { nodes = m'; failure_detector = d' }, effects, rw run refl, ready', decides)
