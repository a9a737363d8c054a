-- ===== src/NetworkDelegate/Cookies.antt =====
-- Cookie access, and the other decisions that rest on it.
use dumb_browser.Base.{◌≡◌, refl, ◌↔◌, Bool, true, false, none, some, Option-cases, inl, inr, arith}
use package.dumb_browser.NetworkDelegate.Libraries.{
  DelegateLibraries, UrlLoader, WebSocket, UrlRequest, Delegate,
}
use package.dumb_browser.NetworkDelegate.{
  on_can_get_cookies, on_can_set_cookie, on_force_privacy_mode,
}

module _ (lib : DelegateLibraries) (d : Delegate lib) (r : UrlRequest lib) where
  -- Who decides about the cookies of a request, besides the settings: its loader; without one, its
  -- web socket; without either, nobody.
  pub data IsAllowed : Type 0 where
    by_loader :
        (loader : UrlLoader lib)
        → r.loader ≡ some loader
        → loader.allow_cookies r.url r.site_for_cookies ≡ true
        → IsAllowed
    by_web_socket :
        (web_socket : WebSocket lib)
        → r.loader ≡ none
        → r.web_socket ≡ some web_socket
        → web_socket.allow_cookies r.url ≡ true
        → IsAllowed
    by_nobody : r.loader ≡ none → r.web_socket ≡ none → IsAllowed

  abbrev owner_allows : Bool
  owner_allows = elim r.loader [
    | some loader ↦ loader.allow_cookies r.url r.site_for_cookies
    | none ↦ elim r.web_socket [ some web_socket ↦ web_socket.allow_cookies r.url | none ↦ true ]
  ]

  IsAllowed-owner_allows : IsAllowed → owner_allows ≡ true
  IsAllowed-owner_allows (by_loader loader here says) = rw here says
  IsAllowed-owner_allows (by_web_socket web_socket none_there here says) =
      rw (none_there, here) says
  IsAllowed-owner_allows (by_nobody none_there no_socket) = rw (none_there, no_socket) refl

  owner_allows-IsAllowed : (owner_allows ≡ true) ↔ IsAllowed
  owner_allows-IsAllowed = (
    λ h. elim (Option-cases r.loader) [
      | inr (loader, here) ↦ by_loader loader here (ground (arith, h))
      | inl none_there ↦ elim (Option-cases r.web_socket) [
        | inr (web_socket, here) ↦ by_web_socket web_socket none_there here (ground (arith, h))
        | inl no_socket ↦ by_nobody none_there no_socket
      ]
    ],
    IsAllowed-owner_allows,
  )

  -- What it takes to read or write cookies.
  abbrev pub MayUseCookies : Bool → Type 0
  MayUseCookies allowed_from_caller =
      (allowed_from_caller ≡ true)
      × (d.is_cookie_access_allowed r.url (lib.representative_url r.site_for_cookies)
            r.top_frame_origin
          ≡ true)
      × IsAllowed

  -- Cookies are read exactly when they may be used, and written exactly then: the caller and the
  -- cookie settings allow it, the settings being asked about the URL, the site for cookies and the
  -- top frame of the request, and so does the loader of the request; of a request without a loader,
  -- its web socket; and a request with neither needs no one else.
  pub on_can_get_cookies_iff :
      (allowed_from_caller : Bool)
      → ((on_can_get_cookies lib d r allowed_from_caller ≡ true)
          ↔ MayUseCookies allowed_from_caller)
        × ((on_can_set_cookie lib d r allowed_from_caller ≡ true)
            ↔ MayUseCookies allowed_from_caller)
  unfolding on_can_get_cookies on_can_set_cookie
  on_can_get_cookies_iff allowed = (
    (
      λ h. (ground arith, ground arith, owner_allows-IsAllowed.0 (ground arith)),
      λ m. let owner = owner_allows-IsAllowed.1 m.2 in ground (arith, m, owner),
    ),
    (
      λ h. (ground arith, ground arith, owner_allows-IsAllowed.0 (ground arith)),
      λ m. let owner = owner_allows-IsAllowed.1 m.2 in ground (arith, m, owner),
    ),
  )

  -- A request in privacy mode may neither read nor write cookies, whatever the caller and the owner
  -- of the request say.
  pub on_force_privacy_mode_excludes :
      (allowed_from_caller : Bool)
      → on_force_privacy_mode lib d r.url r.site_for_cookies r.top_frame_origin ≡ true
      → (on_can_get_cookies lib d r allowed_from_caller ≡ false)
        × (on_can_set_cookie lib d r allowed_from_caller ≡ false)
  unfolding on_can_get_cookies on_can_set_cookie on_force_privacy_mode
  on_force_privacy_mode_excludes allowed h = (ground arith, ground arith)
