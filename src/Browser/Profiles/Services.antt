-- ===== src/Browser/Profiles/Services.antt =====
-- The privacy guard service over the life of the process: the profiles that share one, and whose
-- preferences it holds.
use dumb_browser.Base.{
  ◌≡◌, refl, ◌∙◌, ap, sym, subst, ◌⊎◌, inl, inr, true, Option, Option-cases, none, some, arith,
}
use package.dumb_browser.Browser.Profiles.{
  ProfileLibraries, PrivacyGuardService, ServiceFactory, GetService, Process,
  new_privacy_guard_service, build_service_instance_for, get_browser_context_to_use, new_factory,
  get_instance, ensure_browser_context_keyed_service_factories_built, pre_profile_init,
  get_for_browser_context,
}

-- BrowserContextKeyedServiceFactory with its map from contexts to services.
pub record KeyedServices (lib : ProfileLibraries) : Type 0 where
  pub get_service : GetService lib
  pub new_services : lib.Services
  pub find : lib.Services → lib.BrowserContext → Option (PrivacyGuardService lib)
  pub associate : lib.Services → lib.BrowserContext → PrivacyGuardService lib → lib.Services

-- What its documentation says: it maps the context that the subclass says is to be used, and builds
-- a service for that one where there is none yet. The map starts empty, and holds for a context what
-- was last put in for that context.
pub record IsKeyed {lib : ProfileLibraries} (keyed : KeyedServices lib) : Type 0 where
  pub found :
      (f : ServiceFactory lib) (s : lib.Services) (c : lib.BrowserContext)
      (v : PrivacyGuardService lib)
      → keyed.find s (f.get_browser_context_to_use c) ≡ some v
      → keyed.get_service f s c true ≡ (some v, s)
  pub built :
      (f : ServiceFactory lib) (s : lib.Services) (c : lib.BrowserContext)
      → let k = f.get_browser_context_to_use c in
        let v = f.build_service_instance_for k in
        keyed.find s k ≡ none → keyed.get_service f s c true ≡ (some v, keyed.associate s k v)
  pub find-new_services : (k : lib.BrowserContext) → keyed.find keyed.new_services k ≡ none
  pub find-associate :
      (s : lib.Services) (k : lib.BrowserContext) (v : PrivacyGuardService lib)
      → keyed.find (keyed.associate s k v) k ≡ some v
  pub find-associate_other :
      (s : lib.Services) (k j : lib.BrowserContext) (v w : PrivacyGuardService lib)
      → keyed.find (keyed.associate s k v) j ≡ some w
      → ((j ≡ k) × (w ≡ v)) ⊎ (keyed.find s j ≡ some w)

module _ (lib : ProfileLibraries) (keyed : KeyedServices lib) where
  -- The process from its start: profiles are initialised and ask for their services, in any order.
  pub data Reachable : Process lib → Type 0 where
    starts : Reachable (record { instance_ = none; services = keyed.new_services })
    initialises : {p : Process lib} → Reachable p → Reachable (pre_profile_init lib p)
    asks :
        {p : Process lib} (c : lib.BrowserContext)
        → Reachable p
        → Reachable (get_for_browser_context lib keyed.get_service p c).1

  -- The service on the preferences of a profile.
  abbrev pub service_of : lib.BrowserContext → PrivacyGuardService lib
  service_of context =
      let prefs = lib.get_prefs context in
      record { prefs = prefs; pref_change_registrar = lib.init_registrar prefs lib.new_registrar }

  -- The factory is the one there is, if any, and every profile has the service on its preferences.
  record IsServed (p : Process lib) : Type 0 where
    has_factory : (p.instance_ ≡ none) ⊎ (p.instance_ ≡ some (new_factory lib))
    serves :
        (k : lib.BrowserContext) (v : PrivacyGuardService lib)
        → keyed.find p.services k ≡ some v
        → v ≡ service_of k

  get_instance-IsServed :
      (p : Process lib)
      → IsServed p
      → get_instance lib p ≡ (new_factory lib, record p { instance_ = some (new_factory lib) })
  unfolding get_instance
  get_instance-IsServed p served = ground (arith, served.has_factory)

  -- What asking comes to.
  get_for_browser_context-IsServed :
      (p : Process lib) (c : lib.BrowserContext)
      → IsServed p
      → let made = keyed.get_service (new_factory lib) p.services c true in
        get_for_browser_context lib keyed.get_service p c
        ≡ (made.0, record p { instance_ = some (new_factory lib); services = made.1 })
  unfolding get_for_browser_context
  get_for_browser_context-IsServed p c served = rw (get_instance-IsServed p served) refl

  module _ (laws : IsKeyed keyed) where
    -- What the base class answers for the factory, and what it has then for the original profile.
    get_service-IsServed :
        (p : Process lib) (c : lib.BrowserContext)
        → IsServed p
        → let made = keyed.get_service (new_factory lib) p.services c true in
          let original = lib.redirected_in_incognito c in
          (made.0 ≡ some (service_of original))
          × (keyed.find made.1 original ≡ some (service_of original))
          × ((k : lib.BrowserContext) (v : PrivacyGuardService lib)
              → keyed.find made.1 k ≡ some v
              → v ≡ service_of k)
    unfolding new_factory get_browser_context_to_use build_service_instance_for
        new_privacy_guard_service
    get_service-IsServed p c served =
        let original = lib.redirected_in_incognito c in
        elim (Option-cases (keyed.find p.services original)) [
          | inr (v, here) ↦ rw (laws.found (new_factory lib) p.services c v here) (
            ap some (served.serves original v here),
            here ∙ ap some (served.serves original v here),
            served.serves,
          )
          | inl none_there ↦ rw (laws.built (new_factory lib) p.services c none_there) (
            refl,
            laws.find-associate p.services original (service_of original),
            λ k v e.
                elim (laws.find-associate_other p.services original k (service_of original) v e) [
                  | inl (same, is) ↦ is ∙ ap service_of (sym same)
                  | inr before ↦ served.serves k v before
                ],
          )
        ]

    Reachable-IsServed : (p : Process lib) → Reachable p → IsServed p
    unfolding pre_profile_init ensure_browser_context_keyed_service_factories_built
    Reachable-IsServed p starts = record {
      has_factory = inl refl;
      serves = λ k v e. absurd (ground (arith, e, laws.find-new_services k));
    }
    Reachable-IsServed p (initialises {p = q} r) =
        let served = Reachable-IsServed q r in
        subst (λ t. IsServed t) (sym (ap (λ made. made.1) (get_instance-IsServed q served)))
          (record { has_factory = inr refl; serves = served.serves })
    Reachable-IsServed p (asks {p = q} c r) =
        let served = Reachable-IsServed q r in
        rw (get_for_browser_context-IsServed q c served)
          (record { has_factory = inr refl; serves = (get_service-IsServed q c served).2 })

  -- Let the base class keep a map of services by contexts, as it documents. However often profiles
  -- were initialised and asked for their services before, in whatever order: a context that asks is
  -- given a service, on the preferences of its original profile and with a registrar of those; and
  -- another context with the same original profile that asks then is given the same, while nothing
  -- is built or put in any more.
  pub get_for_browser_context-shared :
      (p : Process lib) (c d : lib.BrowserContext)
      → IsKeyed keyed
      → Reachable p
      → lib.redirected_in_incognito d ≡ lib.redirected_in_incognito c
      → let made = get_for_browser_context lib keyed.get_service p c in
        (made.0 ≡ some (service_of (lib.redirected_in_incognito c)))
        × (get_for_browser_context lib keyed.get_service made.1 d ≡ made)
  unfolding new_factory get_browser_context_to_use
  get_for_browser_context-shared p c d laws r same =
      let served = Reachable-IsServed laws p r in
      let got = get_service-IsServed laws p c served in
      let s = (keyed.get_service (new_factory lib) p.services c true).1 in
      let v = service_of (lib.redirected_in_incognito c) in
      let after : Process lib = record p { instance_ = some (new_factory lib); services = s } in
      let again : keyed.get_service (new_factory lib) s d true ≡ (some v, s) =
        laws.found (new_factory lib) s d v (ap (λ k. keyed.find s k) same ∙ got.1) in
      let known : IsServed after = record { has_factory = inr refl; serves = got.2 } in
      rw (get_for_browser_context-IsServed p c served)
        (got.0, rw (get_for_browser_context-IsServed after d known, again, got.0) refl)
