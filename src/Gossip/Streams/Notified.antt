-- ===== src/Gossip/Streams/Notified.antt =====
-- pkg/gossip/gossip.go: whom Leave notifies, and what it returns.
use pico.Prelude.{
  ℕ, zero, suc, dec_lt, ◌+◌, ◌-◌, ◌≤◌, ◌≡◌, ◌≢◌, ◌⊎◌, ◌%◌, ◌^◌, refl, inl, inr, GoString, true,
  false, ◌||◌, List, [], ◌∷◌, Option, none, some, ltb, if◌then◌else◌, arith, subst, sym, lookup,
  lookup-insert, str_dec, Option-cases, Bool-cases,
}
use pico.Gossip.Types.{NodeMetadata, NodeState, Entry, Effect, left_key, next_version}
use pico.Gossip.State.{ClusterState, local_node_metadata, all_nodes, put_local}
use pico.Gossip.Local.{leave_node, leave_local, internal_entry, write_entry}
use pico.Gossip.Delta.{local_delta}
use pico.Gossip.Protocol.{Error, take}
use pico.Gossip.Streams.{StreamNetwork, notify, leave_one, leave}

-- The addresses of the nodes other than the local one that have not left and are reachable.
unfoldable pub candidates : GoString → List NodeMetadata → List GoString
candidates local_id [] = []
candidates local_id (n ∷ ns) = elim (str_dec n.id local_id) [
  | yes is_local ↦ candidates local_id ns
  | no is_other ↦ elim (n.left || n.unreachable) [
    | true ↦ candidates local_id ns
    | false ↦ n.addr ∷ candidates local_id ns
  ]
]

-- Those that answer without an error, and the error of the last that does not.
unfoldable pub succeeded : (GoString → Option Error) → List GoString → List GoString
succeeded outcome [] = []
succeeded outcome (addr ∷ addrs) = elim (outcome addr) [
  | none ↦ addr ∷ succeeded outcome addrs
  | some e ↦ succeeded outcome addrs
]

unfoldable pub last_failure :
    (GoString → Option Error) → Option Error → List GoString → Option Error
last_failure outcome last [] = last
last_failure outcome last (addr ∷ addrs) = elim (outcome addr) [
  | none ↦ last_failure outcome last addrs
  | some e ↦ last_failure outcome (some e) addrs
]

-- What is returned after `notified` nodes, with these that succeed after them.
abbrev pub error_after : ℕ → List GoString → Option Error → Option Error
error_after notified [] last = if ltb 0 notified then none else last
error_after notified (addr ∷ addrs) last = none

take-nil : (n : ℕ) → take {A = GoString} n [] ≡ []
take-nil zero = refl
take-nil (suc n) = refl

error_after-some :
    (notified : ℕ) (addrs : List GoString) (last : Option Error)
    → error_after (notified + 1) addrs last ≡ none
error_after-some notified [] last = ground arith
error_after-some notified (addr ∷ addrs) last = refl

module _ (net : StreamNetwork) (s : ClusterState) {local : NodeMetadata}
    (own : local_node_metadata s ≡ some local) (outcome : GoString → Option Error)
    (tries : (addr : GoString) → leave_one net s addr ≡ some (outcome addr)) where
  notify_lem :
      (ns : List NodeMetadata) (notified : ℕ) (last : Option Error)
      → notified ≤ 3
      → let answered = succeeded outcome (candidates local.id ns) in
        notify net s ns notified last
        ≡ some (
          take (4 - notified) answered,
          error_after notified answered (last_failure outcome last (candidates local.id ns)),
        )
  unfolding notify candidates succeeded last_failure
  notify_lem [] notified last le = elim (dec_lt notified 4) [
    | yes lt ↦ rw (take-nil (4 - notified)) refl
    | no ge ↦ absurd (omega (arith, le))
  ]
  notify_lem (n ∷ ns) notified last le = elim (str_dec n.id local.id) [
    | yes p ↦ let ih = notify_lem ns notified last le in ground (arith, own, p, ih)
    | no ne ↦ elim (Bool-cases (n.left || n.unreachable)) [
      | inl away ↦ let ih = notify_lem ns notified last le in ground (arith, own, ne, away, ih)
      | inr here ↦ elim (Option-cases (outcome n.addr)) [
        | inr (e, failed) ↦
            let ih = notify_lem ns notified (some e) le in
            ground (arith, own, ne, here, tries n.addr, failed, ih)
        | inl answered ↦ elim (dec_lt notified 3) [
          | yes more ↦
              let ih = notify_lem ns (notified + 1) last (omega (arith, more)) in
              let left : 4 - notified ≡ suc (4 - (notified + 1)) = omega (arith, more) in
              let quiet =
                error_after-some notified (succeeded outcome (candidates local.id ns))
                  (last_failure outcome last (candidates local.id ns)) in
              ground (arith, own, ne, here, tries n.addr, answered, left, ih, quiet)
          | no enough ↦
              let last_one : notified ≡ 3 = omega (arith, le, enough) in
              let left : 4 - notified ≡ 1 = omega (arith, last_one) in
              ground (arith, own, ne, here, tries n.addr, answered, last_one, left)
        ]
      ]
    ]
  ]

-- What `leave` gives for an address, on a state that has the local node.
abbrev pub outcome_of : StreamNetwork → ClusterState → GoString → Option Error
outcome_of net s addr = elim (leave_one net s addr) [ none ↦ none | some outcome ↦ outcome ]

leave_one-some :
    (net : StreamNetwork) (s : ClusterState) (n : NodeState) (addr : GoString)
    → lookup s.local_id s.nodes ≡ some n
    → leave_one net s addr ≡ some (outcome_of net s addr)
unfolding leave_one local_delta local_node_metadata
leave_one-some net s n addr own = elim (Option-cases (leave_one net s addr)) [
  | inr (o, done) ↦ ground (arith, done)
  | inl panics ↦ absurd (ground (arith, panics, own))
]

id-leave_node : (n : NodeState) → (leave_node n).0.id ≡ n.id
unfolding leave_node
id-leave_node n = ground arith

local_found :
    (s : ClusterState) (n : NodeState)
    → lookup s.local_id s.nodes ≡ some n
    → local_node_metadata s ≡ some n.metadata
unfolding local_node_metadata
local_found s n own = rw (local_node_metadata, own) refl

leave_local_lem :
    (s : ClusterState) (n : NodeState)
    → lookup s.local_id s.nodes ≡ some n
    → leave_local s ≡ some (put_local s (leave_node n).0, (leave_node n).1)
unfolding leave_local
leave_local_lem s n own = rw own refl

leave_run :
    (net : StreamNetwork) (s : ClusterState) (n : NodeState)
    → lookup s.local_id s.nodes ≡ some n
    → let s' = put_local s (leave_node n).0 in
      let asked = candidates n.id (net.shuffle (all_nodes s')) in
      let answered = succeeded (outcome_of net s') asked in
      leave net s
      ≡ some (
        s',
        (leave_node n).1,
        take 4 answered,
        error_after 0 answered (last_failure (outcome_of net s') none asked),
      )
unfolding leave
leave_run net s n own =
    let s' : ClusterState = put_local s (leave_node n).0 in
    let own' : lookup s.local_id s'.nodes ≡ some (leave_node n).0 =
      ground (arith, lookup-insert s.local_id s.local_id (leave_node n).0 s.nodes) in
    let same : (leave_node n).0.id ≡ n.id = id-leave_node n in
    let Notifies = λ (id : GoString).
      let asked = candidates id (net.shuffle (all_nodes s')) in
      let answered = succeeded (outcome_of net s') asked in
      notify net s' (net.shuffle (all_nodes s')) 0 none
      ≡ some
          (take 4 answered, error_after 0 answered (last_failure (outcome_of net s') none asked)) in
    let ran =
      notify_lem net s' {local = (leave_node n).0.metadata} (local_found s' (leave_node n).0 own')
        (outcome_of net s') (λ addr. leave_one-some net s' (leave_node n).0 addr own')
        (net.shuffle (all_nodes s')) 0 none (omega arith) in
    rw (leave, leave_local_lem s n own, subst (λ i. Notifies i) same ran) refl

-- The entry that tells other nodes of the leave: internal, and without a value.
abbrev pub IsLeftEntry : Entry → ℕ → Type 0
IsLeftEntry e version =
    (e.key ≡ left_key)
    × (e.value ≡ [])
    × (e.version ≡ version)
    × (e.internal ≡ true)
    × (e.deleted ≡ false)

-- A node that had left stays as it is; any other is marked as left, in the next version, and has the
-- entry, next to its other entries.
abbrev pub IsLeft : NodeState → NodeState → Type 0
IsLeft n n' =
    (n'.left ≡ true)
    × (n'.id ≡ n.id)
    × (n'.addr ≡ n.addr)
    × (((n.left ≡ true) × (n' ≡ n))
        ⊎ ((n.left ≡ false)
            × (n'.version ≡ (n.version + 1) % 2 ^ 64)
            × ((e : Entry) × (lookup left_key n'.entries ≡ some e) × IsLeftEntry e n'.version)
            × ((k : GoString) → left_key ≢ k → lookup k n'.entries ≡ lookup k n.entries)))

leave_node-left : (n : NodeState) → n.left ≡ true → leave_node n ≡ (n, [])
unfolding leave_node
leave_node-left n gone = ground (arith, gone)

-- The node with the mark and the entry.
abbrev marked : NodeState → NodeState
marked n =
    write_entry (record n { metadata = record n.metadata { left = true } })
      (internal_entry left_key [] (next_version n.version))

leave_node-marked : (n : NodeState) → n.left ≡ false → (leave_node n).0 ≡ marked n
unfolding leave_node
leave_node-marked n there = ground (arith, there)

leave_node-IsLeft : (n : NodeState) → IsLeft n (leave_node n).0
unfolding next_version
leave_node-IsLeft n = elim (Bool-cases n.left) [
  | inl gone ↦
      subst (λ r. IsLeft n r.0) (sym (leave_node-left n gone)) (gone, refl, refl, inl (gone, refl))
  | inr there ↦
      let e = internal_entry left_key [] (next_version n.version) in
      subst (IsLeft n) (sym (leave_node-marked n there)) (
        refl,
        refl,
        refl,
        inr (
          there,
          refl,
          (
            e,
            ground (arith, lookup-insert left_key left_key e n.entries),
            (refl, refl, refl, refl, refl),
          ),
          λ k ne. ground (arith, ne, lookup-insert left_key k e n.entries),
        ),
      )
]

-- On a node that has its own state, Leave marks it as left, in the next version and with the
-- internal left entry, unless it had left; its other entries and the other nodes stay. It
-- notifies, of the other nodes that have not left and are reachable, in the shuffled order, the
-- first four that answer without an error; the comments say three. It returns an error only if
-- none answers, and then that of the last.
pub leave_lem :
    (net : StreamNetwork) (s : ClusterState) (n : NodeState)
    → lookup s.local_id s.nodes ≡ some n
    → (s' : ClusterState) × (n' : NodeState) × (effects : List Effect) × let asked =
          candidates n.id (net.shuffle (all_nodes s')) in
        let answered = succeeded (outcome_of net s') asked in
        (leave net s
          ≡ some (
            s',
            effects,
            take 4 answered,
            error_after 0 answered (last_failure (outcome_of net s') none asked),
          ))
        × (lookup s.local_id s'.nodes ≡ some n')
        × IsLeft n n'
        × ((id : GoString) → s.local_id ≢ id → lookup id s'.nodes ≡ lookup id s.nodes)
leave_lem net s n own = (
  put_local s (leave_node n).0,
  (leave_node n).0,
  (leave_node n).1,
  (
    leave_run net s n own,
    ground (arith, lookup-insert s.local_id s.local_id (leave_node n).0 s.nodes),
    leave_node-IsLeft n,
    λ id ne. ground (arith, ne, lookup-insert s.local_id id (leave_node n).0 s.nodes),
  ),
)
