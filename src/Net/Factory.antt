-- ===== src/Net/Factory.antt =====
-- `DumbProxyingURLLoaderFactory` around its requests, of
-- dumb/browser/net/dumb_proxying_url_loader_factory.{h,cc}, and `RequestIDGenerator` of
-- resource_context_data.h, which it shares with the other proxies of the profile. A request is its
-- identifier here; what it does by itself is Net/Loader. The receivers are counted.
pub mod Lifetime
mod Tests
use dumb_browser.Base.{
  ℕ, ◌+◌, ◌==◌, ◌≡◌, ◌<◌, zero, suc, Bool, true, false, not, ◌||◌, List, [], ◌∷◌, if◌then◌else◌,
  is_empty, Exec, done, fault, missing_entry,
}

pub record Factory : Type 0 where
  -- whether `target_factory_` is bound
  pub target_factory : Bool
  pub proxy_receivers : ℕ
  pub requests : List ℕ
  -- `request_id_generator_->id_`
  pub last_id : ℕ
  -- how often `disconnect_callback_` has run; it deletes the factory
  pub disconnects : ℕ

abbrev pub contains : ℕ → List ℕ → Bool
contains i [] = false
contains i (j ∷ js) = j == i || contains i js

abbrev pub remove : ℕ → List ℕ → List ℕ
remove i [] = []
remove i (j ∷ js) = let left = remove i js in if j == i then left else j ∷ left

-- The generator's counter comes in; 2^63 identifiers are never used up.
unfoldable pub new_factory : ℕ → Factory
new_factory last_id = record {
  target_factory = true;
  proxy_receivers = 1;
  requests = [];
  last_id = last_id;
  disconnects = 0;
}

unfoldable pub maybe_remove_proxy : Factory → Factory
maybe_remove_proxy f =
    if f.target_factory || not (is_empty f.requests)
    then f
    else record f { disconnects = f.disconnects + 1 }

-- `Generate`, by whomever.
unfoldable pub generate : Factory → Factory
generate f = record f { last_id = f.last_id + 1 }

unfoldable pub create_loader_and_start : Factory → Factory
unfolding generate
create_loader_and_start f = let f' = generate f in record f' { requests = f'.last_id ∷ f'.requests }

unfoldable pub clone : Factory → Factory
clone f = record f { proxy_receivers = f.proxy_receivers + 1 }

unfoldable pub on_target_factory_error : Factory → Factory
unfolding maybe_remove_proxy
on_target_factory_error f =
    maybe_remove_proxy (record f { target_factory = false; proxy_receivers = 0 })

-- The set has dropped the receiver before.
unfoldable pub on_proxy_binding_error : Factory → Factory
unfolding maybe_remove_proxy
on_proxy_binding_error f =
    maybe_remove_proxy (if f.proxy_receivers == 0 then record f { target_factory = false } else f)

-- The end of the set is no entry that could be erased.
unfoldable pub remove_request : ℕ → Factory → Exec Factory
unfolding maybe_remove_proxy
remove_request i f =
    if contains i f.requests
    then done (maybe_remove_proxy (record f { requests = remove i f.requests }))
    else fault missing_entry

-- One call of a factory that was not deleted. Only an open receiver asks for loaders and clones.
pub data Step : Factory → Factory → Type 0 where
  asks :
      (f : Factory) → f.disconnects ≡ 0 → 0 < f.proxy_receivers → Step f (create_loader_and_start f)
  clones : (f : Factory) → f.disconnects ≡ 0 → 0 < f.proxy_receivers → Step f (clone f)
  generates_elsewhere : (f : Factory) → Step f (generate f)
  loses_target : (f : Factory) → f.disconnects ≡ 0 → Step f (on_target_factory_error f)
  loses_receiver :
      (f : Factory) (left : ℕ)
      → f.disconnects ≡ 0
      → f.proxy_receivers ≡ suc left
      → Step f (on_proxy_binding_error (record f { proxy_receivers = left }))
  ends_request :
      (i : ℕ) (f f' : Factory) → f.disconnects ≡ 0 → remove_request i f ≡ done f' → Step f f'

pub data Reachable : Factory → Type 0 where
  starts : (last_id : ℕ) → Reachable (new_factory last_id)
  goes_on : (f f' : Factory) → Reachable f → Step f f' → Reachable f'
