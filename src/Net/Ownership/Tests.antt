-- ===== src/Net/Ownership/Tests.antt =====
-- A profile with a URL loader proxy at 5, which has started one request, and a web socket at 3,
-- which has run.
use dumb_browser.Base.{ℕ, ◌≡◌, ◌≤◌, ◌==◌, refl, true, none, some, if◌then◌else◌, done, arith}
use dumb_browser.Base.Dict.{lookup, insert}
use dumb_browser.Net.Factory
use dumb_browser.Net.Factory.{
  new_factory, create_loader_and_start, generate, on_target_factory_error, asks, loses_target,
  maybe_remove_proxy,
}
use dumb_browser.Net.Factory.Lifetime.{is_needed}
use package.dumb_browser.Net.Ownership.{
  ResourceContextData, new_resource_context_data, get_or_create, start_proxying,
  start_proxying_web_socket, after_call, number_web_socket, Reachable, starts, goes_on,
  starts_loader, starts_web_socket, loader_acts, web_socket_runs,
}
use package.dumb_browser.Net.Ownership.Owned.{Reachable-owned}
use package.dumb_browser.Net.Ownership.Users.{web_socket}
use package.dumb_browser.Net.Ownership.Identifiers.{Reachable-one_user}

abbrev asked : Factory.Factory
asked = create_loader_and_start (new_factory 0)

abbrev one_loader : ResourceContextData
one_loader = start_proxying 5 none

abbrev loading : ResourceContextData
loading = record one_loader { last_id = 1; proxies = insert 5 asked one_loader.proxies }

abbrev both : ResourceContextData
both = number_web_socket 3 (start_proxying_web_socket 3 (some loading))

loading-Reachable : Reachable (some loading)
unfolding start_proxying get_or_create new_resource_context_data create_loader_and_start generate
    new_factory after_call lookup insert
loading-Reachable =
    goes_on (some one_loader) (some loading)
      (goes_on none (some one_loader) starts (starts_loader 5 none refl))
      (loader_acts 5 one_loader loading (new_factory 0) asked refl
        (asks (new_factory 0) refl (omega arith)) refl)

both-Reachable : Reachable (some both)
unfolding start_proxying get_or_create new_resource_context_data create_loader_and_start generate
    new_factory start_proxying_web_socket number_web_socket lookup insert
both-Reachable =
    goes_on (some (start_proxying_web_socket 3 (some loading))) (some both)
      (goes_on (some loading) (some (start_proxying_web_socket 3 (some loading))) loading-Reachable
        (starts_web_socket 3 (some loading) refl))
      (web_socket_runs 3 (start_proxying_web_socket 3 (some loading)) refl)

Reachable-owned_example :
    (loading.request_handler ≡ true)
    × (is_needed asked ≡ true)
    × (r' : ResourceContextData) × (after_call 5 (on_target_factory_error asked) loading ≡ done r')
    × ((b : ℕ)
        → lookup b r'.proxies ≡ (
            if 5 == b
            then (if is_needed (on_target_factory_error asked)
                then some (on_target_factory_error asked)
                else none)
            else lookup b loading.proxies))
    × (r'.websocket_proxies ≡ loading.websocket_proxies)
unfolding start_proxying get_or_create new_resource_context_data create_loader_and_start generate
    new_factory on_target_factory_error maybe_remove_proxy lookup insert
Reachable-owned_example =
    Reachable-owned loading 5 asked (on_target_factory_error asked) loading-Reachable refl
      (loses_target asked refl)

Reachable-one_user_example : (web_socket 3 ≡ web_socket 3) × (2 ≤ both.last_id)
unfolding start_proxying get_or_create new_resource_context_data create_loader_and_start generate
    new_factory start_proxying_web_socket number_web_socket lookup insert
Reachable-one_user_example =
    Reachable-one_user both (web_socket 3) (web_socket 3) 2 both-Reachable refl refl
