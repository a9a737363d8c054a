-- ===== src/Browser/Profiles.antt =====
-- The keyed service of a profile: dumb/browser/privacy_guard/dumb_privacy_guard_service_factory.cc,
-- dumb/components/privacy_guard/browser/dumb_privacy_guard_service.cc, and what makes the factory
-- when the browser starts, dumb/browser/browser_context_keyed_service_factories.cc and
-- dumb/browser/dumb_browser_main_extra_parts_profiles.cc.
pub mod Services
use dumb_browser.Base.{String, Bool, true, Option, none, some, List, [], ◌∷◌, ◌++◌}

-- What Chromium has of profiles: their preferences, the change registrars of those, and the
-- original profile of an incognito one. `Services` is what a keyed-service factory has made so far.
pub record ProfileLibraries : Type 1 where
  pub BrowserContext : Type 0
  pub PrefService : Type 0
  pub PrefChangeRegistrar : Type 0
  pub Services : Type 0
  -- `Profile::FromBrowserContext(context)->GetPrefs()`
  pub get_prefs : BrowserContext → PrefService
  pub new_registrar : PrefChangeRegistrar
  pub init_registrar : PrefService → PrefChangeRegistrar → PrefChangeRegistrar
  pub redirected_in_incognito : BrowserContext → BrowserContext

pub record PrivacyGuardService (lib : ProfileLibraries) : Type 0 where
  pub prefs : lib.PrefService
  pub pref_change_registrar : lib.PrefChangeRegistrar

-- What `DumbPrivacyGuardServiceFactory` overrides of its base class.
pub record ServiceFactory (lib : ProfileLibraries) : Type 0 where
  pub name : String
  pub build_service_instance_for : lib.BrowserContext → PrivacyGuardService lib
  pub get_browser_context_to_use : lib.BrowserContext → lib.BrowserContext
  pub service_is_created_with_browser_context : Bool

-- `BrowserContextKeyedServiceFactory::GetServiceForBrowserContext(context, create)`
abbrev pub GetService : ProfileLibraries → Type 0
GetService lib =
    ServiceFactory lib
    → lib.Services
    → lib.BrowserContext
    → Bool
    → Option (PrivacyGuardService lib) × lib.Services

-- The static instance of the factory, and the services.
pub record Process (lib : ProfileLibraries) : Type 0 where
  pub instance_ : Option (ServiceFactory lib)
  pub services : lib.Services

pub data MainParts : Type 0 where
  dumb_browser_main_extra_parts_profiles : MainParts

unfoldable pub add_profiles_extra_parts : List MainParts → List MainParts
add_profiles_extra_parts main_parts = main_parts ++ dumb_browser_main_extra_parts_profiles ∷ []

module _ (lib : ProfileLibraries) where
  unfoldable pub new_privacy_guard_service : lib.PrefService → PrivacyGuardService lib
  new_privacy_guard_service prefs = record {
    prefs = prefs;
    pref_change_registrar = lib.init_registrar prefs lib.new_registrar;
  }

  unfoldable pub build_service_instance_for : lib.BrowserContext → PrivacyGuardService lib
  unfolding new_privacy_guard_service
  build_service_instance_for context = new_privacy_guard_service (lib.get_prefs context)

  unfoldable pub get_browser_context_to_use : lib.BrowserContext → lib.BrowserContext
  get_browser_context_to_use context = lib.redirected_in_incognito context

  unfoldable pub new_factory : ServiceFactory lib
  new_factory = record {
    name = "DumbPrivacyGuardService";
    build_service_instance_for = build_service_instance_for;
    get_browser_context_to_use = get_browser_context_to_use;
    service_is_created_with_browser_context = true;
  }

  -- `GetInstance`; the static is constructed at the first call.
  unfoldable pub get_instance : Process lib → ServiceFactory lib × Process lib
  get_instance p = elim p.instance_ [
    | some factory ↦ (factory, p)
    | none ↦ (new_factory, record p { instance_ = some new_factory })
  ]

  unfoldable pub ensure_browser_context_keyed_service_factories_built : Process lib → Process lib
  unfolding get_instance
  ensure_browser_context_keyed_service_factories_built p = (get_instance p).1

  unfoldable pub pre_profile_init : Process lib → Process lib
  unfolding ensure_browser_context_keyed_service_factories_built
  pre_profile_init p = ensure_browser_context_keyed_service_factories_built p

  unfoldable pub get_for_browser_context :
      GetService lib
      → Process lib
      → lib.BrowserContext
      → Option (PrivacyGuardService lib) × Process lib
  unfolding get_instance
  get_for_browser_context get_service p context =
      let (factory, p') = get_instance p in
      let (service, services) = get_service factory p'.services context true in
      (service, record p' { services = services })
