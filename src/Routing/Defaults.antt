-- ===== src/Routing/Defaults.antt =====
-- turbobond/bond/routing.py: the default route, over all uplinks or through the tunnel.
use turbobond.Base.{ℕ, min, max, Bool, not, ◌||◌, List, [], ◌∷◌, ◌++◌, map, ◌==◌, if◌then◌else◌}
use turbobond.Base.Floats.{Floats, fsum, max_by}
use turbobond.Base.Text.{◌<>◌, decimal, join}
use turbobond.Command.{CommandResult, World, went_well}
use turbobond.Links.{usable, effective_weight}
use Prim.Native.String.{String}
use turbobond.Routing.{
  Link, not_installed, no_usable_uplink, default_failed, pin_failed, tunnel_default_failed,
  RoutingReport, no_report, with_error, via, usable_links, ip, ip_, bond_rule, table_bond,
}

module _ {F : Type 0} (fl : Floats F) (round : F → ℕ) where
  -- `sum(...) or 1.0`
  unfoldable pub total_weight : List (Link F) → F
  total_weight links =
      let total = fsum fl (map (λ l. effective_weight fl (l.link)) links) (fl.of_ratio 0 1) in
      if fl.eq total (fl.of_ratio 0 1) then fl.of_ratio 1 1 else total

  -- The weight of a next hop, an integer in 1..255.
  unfoldable pub hop_weight : F → Link F → ℕ
  hop_weight total l =
      max 1
        (min 255 (round (fl.mul (fl.div (effective_weight fl (l.link)) total) (fl.of_ratio 100 1))))

  unfoldable pub hops : F → List (Link F) → List String
  hops total [] = []
  hops total (l ∷ ls) =
      "nexthop"
      ∷ (via l ++ ("dev" ∷ l.interface ∷ "weight" ∷ decimal (hop_weight total l) ∷ hops total ls))

  abbrev member : F → Link F → String
  member total l = l.name <> "(w=" <> decimal (hop_weight total l) <> ")"

  -- `max(usable, key=effective_weight)` on one link and the others.
  unfoldable pub best_of : Link F → List (Link F) → Link F
  best_of l ls = max_by fl (λ x. effective_weight fl (x.link)) l ls

-- The end of both default routes: the rule and what the report shows.
module _ {S : Type 0} (exec : List String → String → S → CommandResult × S) {F : Type 0}
    (fl : Floats F) (round : F → ℕ) where
  unfoldable pub ecmp_installed : ℕ → RoutingReport → World S → RoutingReport × World S
  ecmp_installed table r w =
      (record r { default_route = join " " (r.ecmp_members) }, bond_rule exec table w)

  -- A kernel that refuses the multipath route gets one with the best link.
  unfoldable pub single_uplink : ℕ → Link F → RoutingReport → World S → RoutingReport × World S
  single_uplink table best r w =
      let (result, w1) =
        ip exec
          ("route"
            ∷ "replace"
            ∷ "default"
            ∷ "table"
            ∷ decimal table
            ∷ (via best ++ ("dev" ∷ best.interface ∷ [])))
          w in
      if not (went_well result)
      then (with_error (default_failed (result.stderr)) r, w1)
      else ecmp_installed table (record r { ecmp_members = (best.name <> "(single)") ∷ [] }) w1

  unfoldable pub install_on : ℕ → List (Link F) → World S → RoutingReport × World S
  install_on table [] w = (with_error no_usable_uplink no_report, w)
  install_on table (l ∷ ls) w =
      let total = total_weight fl round (l ∷ ls) in
      let r = record no_report { ecmp_members = map (member fl round total) (l ∷ ls) } in
      let (result, w1) =
        ip exec
          ("route" ∷ "replace" ∷ "default" ∷ "table" ∷ decimal table ∷ hops fl round total (l ∷ ls))
          w in
      if not (went_well result)
      then single_uplink table (best_of fl round l ls) r w1
      else ecmp_installed table r w1

  unfoldable pub install_ecmp_default : Bool → ℕ → List (Link F) → World S → RoutingReport × World S
  install_ecmp_default available table links w =
      if not available
      then (with_error not_installed no_report, w)
      else install_on table (usable_links links) w

  -- The concentrator's address stays on the physical links: in the table of each, and on the best one.
  unfoldable pub host_routes : String → List (Link F) → World S → World S
  host_routes host [] w = w
  host_routes host (l ∷ ls) w =
      let words =
        "route"
        ∷ "replace"
        ∷ (host <> "/32")
        ∷ (via l ++ ("dev" ∷ l.interface ∷ "table" ∷ decimal (l.table_id) ∷ [])) in
      host_routes host ls
        (if not (usable (l.link)) || (l.table_id == 0) then w else ip_ exec words w)

  unfoldable pub pin_concentrator : String → List (Link F) → World S → RoutingReport × World S
  pin_concentrator host [] w = (no_report, w)
  pin_concentrator host (l ∷ ls) w =
      let best = best_of fl round l ls in
      let (result, w1) =
        ip exec
          ("route" ∷ "replace" ∷ (host <> "/32") ∷ (via best ++ ("dev" ∷ best.interface ∷ []))) w in
      (
        if went_well result then no_report else with_error (pin_failed (result.stderr)) no_report,
        w1,
      )

  unfoldable pub install_tunnel_default :
      Bool → String → String → String → List (Link F) → World S → RoutingReport × World S
  install_tunnel_default available tun_device peer_ip host links w =
      if not available
      then (with_error not_installed no_report, w)
      else (let (r, w1) = pin_concentrator host (usable_links links) (host_routes host links w) in
          let (result, w2) =
            ip exec
              ("route"
                ∷ "replace"
                ∷ "default"
                ∷ "via"
                ∷ peer_ip
                ∷ "dev"
                ∷ tun_device
                ∷ "table"
                ∷ decimal table_bond
                ∷ [])
              w1 in
          if not (went_well result)
          then (with_error (tunnel_default_failed (result.stderr)) r, w2)
          else (
            record r { default_route = "default via " <> peer_ip <> " dev " <> tun_device },
            bond_rule exec table_bond w2,
          ))
