-- ===== src/Catalog/Sync/Elects.antt =====
-- catalog.go: the peers that items are elected to after a synchronisation.
use jellysync.Common.{
  Str, str_eq, str_eq_iff, is_empty, ℕ, ◌≡◌, ◌∙◌, refl, sym, ap, Bool, true, false, not, ◌&&◌, some,
  List, [], ◌∷◌, arith, Bool-cases, Option-cases, inl, inr,
}
use mathlib.Core.List.{Memᴰ}
use jellysync.Common.Table.{lookup, IsUnique}
use jellysync.Catalog.Folders.{contains}
use jellysync.Catalog.Election.{elect}
use jellysync.Catalog.Items.{Item, is_inert}
use jellysync.Catalog.Items.Outcome.{row_after}
use jellysync.Catalog.Items.Written.{lookup-write_election}
use jellysync.Peers.Registry.{Peer, State, online, degraded, offline, disabled, offering}
use jellysync.Catalog.Sync.{
  World, Library, SyncStats, pull_peers, online_peers, all_offers, is_online, offering_ids,
  run_election, index_step, pull_and_elect, prune_removed_peers, sync,
}
use jellysync.Catalog.Sync.Served.{
  lookup-all_rows, kept_is_there, is_served, elect-IsSound, row_after-is_served,
}

false_is_not_true : ¬ (false ≡ true)
false_is_not_true h = cc

online_only :
    (s : State)
    → (elim s [ online ↦ true | degraded ↦ false | offline ↦ false | disabled ↦ false ]) ≡ true
    → s ≡ online
online_only online h = refl
online_only degraded h = cc
online_only offline h = cc
online_only disabled h = cc

is_online-offering : (p : Peer) (clock : ℕ) → is_online p ≡ true → offering p clock ≡ true
unfolding is_online offering
is_online-offering p clock h = let on = online_only p.state h in ground arith

offering_ids-Mem :
    (clock : ℕ) (known : List Peer) (id : Str)
    → contains id (offering_ids clock known) ≡ true
    → (p : Peer) × Memᴰ p known × (p.id ≡ id) × (offering p clock ≡ true)
unfolding offering_ids contains
offering_ids-Mem clock [] id h = absurd (false_is_not_true h)
offering_ids-Mem clock (p ∷ ps) id h = elim (Bool-cases (offering p clock)) [
  | inl yes_it_is ↦ elim (Bool-cases (str_eq p.id id)) [
    | inl same ↦ (p, Memᴰ.head refl, (str_eq_iff p.id id).0 same, yes_it_is)
    | inr other ↦
        let rest = offering_ids-Mem clock ps id (ground arith) in
        (rest.0, Memᴰ.tail rest.1, rest.2, rest.3)
  ]
  | inr no_longer ↦
      let off = is_online-offering p clock in
      let rest = offering_ids-Mem clock ps id (ground arith) in
      (rest.0, Memᴰ.tail rest.1, rest.2, rest.3)
]

run_election-served :
    (w : World) (known : List Peer) (l : Library) (g : Str) (i : Item)
    → IsUnique l.items
    → lookup g (run_election w known l).items ≡ some i
    → is_empty i.state.peer_id ≡ false
    → contains i.state.peer_id (offering_ids w.clock known) ≡ true
unfolding run_election
run_election-served w known l g i u e n =
    let counts : Str → Bool = λ id. contains id (offering_ids w.clock known) in
    let offers = all_offers l.mirrors in
    let el =
      elect (λ id. contains id (offering_ids w.clock known)) l.hidden l.excluded l.index.rows
        offers in
    let sound =
      elect-IsSound (λ id. contains id (offering_ids w.clock known)) l.hidden l.excluded
        l.index.rows offers in
    let at_g = lookup-write_election w.now g el.0 el.1 l.hidden l.items sound.1 u in
    let there =
      kept_is_there (λ i. not (is_inert i)) (row_after w.now (lookup g el.0) (lookup g l.items)) i
        (sym at_g ∙ e) in
    let served =
      row_after-is_served (λ id. contains id (offering_ids w.clock known)) l.hidden l.excluded w.now
        (lookup g el.0) (lookup g l.items) i
        (λ d f.
          lookup-all_rows
            (is_served (λ id. contains id (offering_ids w.clock known)) l.hidden l.excluded) g el.0
            d sound.0 f)
        there in
    ground arith

pull_and_elect-served :
    (w : World) (known : List Peer) (st : SyncStats) (l : Library) (g : Str) (i : Item)
    → IsUnique l.items
    → (pull_and_elect w known st l).ok ≡ true
    → lookup g (pull_and_elect w known st l).library.items ≡ some i
    → is_empty i.state.peer_id ≡ false
    → contains i.state.peer_id (offering_ids w.clock known) ≡ true
unfolding pull_and_elect prune_removed_peers
pull_and_elect-served w known st l g i u ok e n =
    let pulled : Library = record l { mirrors = pull_peers w (online_peers known) l.mirrors } in
    let served = run_election-served w known (prune_removed_peers known pulled) g i u in
    elim (Bool-cases w.pruned) [
      | inr f ↦ ground arith
      | inl p ↦ elim (Bool-cases (w.elected && w.saved)) [
        | inr f ↦ ground arith
        | inl q ↦ ground arith
      ]
    ]

-- After a synchronisation that succeeds, over items with different keys, an item elected to a peer
-- is elected to a peer of the registry that is online, or was so recently that it still counts.
pub sync-elects_offering :
    (w : World) (refresh_local : Bool) (known : List Peer) (l : Library) (g : Str) (i : Item)
    → IsUnique l.items
    → (sync w refresh_local known l).ok ≡ true
    → lookup g (sync w refresh_local known l).library.items ≡ some i
    → is_empty i.state.peer_id ≡ false
    → (p : Peer) × Memᴰ p known × (p.id ≡ i.state.peer_id) × (offering p w.clock ≡ true)
unfolding sync pull_and_elect prune_removed_peers
sync-elects_offering w refresh_local known l g i u ok e n =
    elim (Option-cases (index_step w refresh_local l)) [
      | inl f ↦ ground arith
      | inr ((ix, st), f) ↦
          let step : sync w refresh_local known l
              ≡ pull_and_elect w known st (record l { index = ix }) =
            rw (f, sync) refl in
          offering_ids-Mem w.clock known i.state.peer_id (
            pull_and_elect-served w known st (record l { index = ix }) g i u
              (ap (λ x. x.ok) (sym step) ∙ ok) (ap (λ x. lookup g x.library.items) (sym step) ∙ e)
              n)
    ]
