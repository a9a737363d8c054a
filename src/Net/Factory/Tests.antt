-- ===== src/Net/Factory/Tests.antt =====
-- A factory that was asked for two loaders.
use dumb_browser.Base.{◌≤◌, ◌≡◌, ◌↔◌, refl, true, false, is_empty, All, arith}
use package.dumb_browser.Net.Factory.{
  Factory, new_factory, create_loader_and_start, generate, Reachable, starts, goes_on, asks,
}
use package.dumb_browser.Net.Factory.Lifetime.{Distinct, Reachable-lifetime}

abbrev busy : Factory
busy = create_loader_and_start (create_loader_and_start (new_factory 4))

busy-Reachable : Reachable busy
unfolding new_factory create_loader_and_start generate
busy-Reachable =
    goes_on _ busy
      (goes_on (new_factory 4) (create_loader_and_start (new_factory 4)) (starts 4)
        (asks (new_factory 4) refl (omega arith)))
      (asks (create_loader_and_start (new_factory 4)) refl (omega arith))

Reachable-lifetime_example :
    ((busy.disconnects ≡ 1) ↔ ((busy.target_factory ≡ false) × (is_empty busy.requests ≡ true)))
    × (busy.disconnects ≤ 1)
    × Distinct busy.requests
    × All (λ i. i ≤ busy.last_id) busy.requests
Reachable-lifetime_example = Reachable-lifetime busy busy-Reachable
