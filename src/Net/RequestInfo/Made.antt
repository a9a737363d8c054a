-- ===== src/Net/RequestInfo/Made.antt =====
-- What `MakeCTX` makes of a request and of the info it had before.
use dumb_browser.Base.{
  ℕ, ◌≡◌, refl, ◌∙◌, sym, false, Option, none, some, List, [], ◌∷◌, ◌++◌, Option-cases, inl, inr,
}
use mathlib.Core.List.{append-nil, append_assoc}
use dumb_browser.Net.Libraries.{NetLibraries, DataElement, bytes, other_element, ResourceRequest}
use package.dumb_browser.Net.RequestInfo.{
  RequestInfo, not_blocked, append_elements, get_upload_data, make_ctx,
}

-- The bytes of a body in order, without its files and pipes.
abbrev pub body_bytes : List DataElement → List ℕ
body_bytes [] = []
body_bytes (bytes bs ∷ elements) = bs ++ body_bytes elements
body_bytes (other_element ∷ elements) = body_bytes elements

module _ (lib : NetLibraries) where
  append_elements-body_bytes :
      (elements : List DataElement) (so_far : List ℕ)
      → append_elements lib elements so_far ≡ so_far ++ body_bytes elements
  unfolding append_elements
  append_elements-body_bytes [] so_far = sym (append-nil so_far)
  append_elements-body_bytes (bytes bs ∷ elements) so_far =
      append_elements-body_bytes elements (so_far ++ bs)
      ∙ append_assoc so_far bs (body_bytes elements)
  append_elements-body_bytes (other_element ∷ elements) so_far =
      append_elements-body_bytes elements so_far

  get_upload_data-body_bytes :
      (request : ResourceRequest lib)
      → get_upload_data lib request
        ≡ (elim request.request_body [ none ↦ [] | some elements ↦ body_bytes elements ])
  unfolding get_upload_data
  get_upload_data-body_bytes request = elim (Option-cases request.request_body) [
    | inl e ↦ rw e refl
    | inr (elements, e) ↦ rw e (append_elements-body_bytes elements [])
  ]

  -- An info made for a request names that request, holds the bytes of its body in order, and is one
  -- on which no listener has run; of the info before, it keeps exactly whether the browser itself
  -- redirected, and from where.
  pub make_ctx_lem :
      (request : ResourceRequest lib) (process frame id : ℕ) (context : Option ℕ)
      (old : Option (RequestInfo lib))
      → let ctx = make_ctx lib request process frame id context old in
        (ctx.request_identifier ≡ id)
        × (ctx.request_url ≡ request.url)
        × (ctx.upload_data
            ≡ (elim request.request_body [ none ↦ [] | some elements ↦ body_bytes elements ]))
        × ((ctx.next_url_request_index ≡ 0) × (ctx.blocked_by ≡ not_blocked))
        × (ctx.internal_redirect
            ≡ (elim old [ none ↦ false | some before ↦ before.internal_redirect ]))
        × (ctx.redirect_source
            ≡ (elim old [ none ↦ lib.empty_url | some before ↦ before.redirect_source ]))
  unfolding make_ctx
  make_ctx_lem request process frame id context none = elim (Option-cases request.isolation_info) [
    | inl i ↦ rw i (refl, refl, get_upload_data-body_bytes request, (refl, refl), refl, refl)
    | inr (i, e) ↦ rw e (refl, refl, get_upload_data-body_bytes request, (refl, refl), refl, refl)
  ]
  make_ctx_lem request process frame id context (some old) =
      elim (Option-cases request.isolation_info) [
        | inl i ↦ rw i (refl, refl, get_upload_data-body_bytes request, (refl, refl), refl, refl)
        | inr (i, e) ↦
            rw e (refl, refl, get_upload_data-body_bytes request, (refl, refl), refl, refl)
      ]
