-- ===== src/Net/WebSocket/Info.antt =====
-- What `MakeCTX` of dumb/browser/net/url_context.cc makes of a web socket's request.
use dumb_browser.Base.{◌≡◌, refl, none, Option-cases, inl, inr}
use dumb_browser.Net.Libraries.{NetLibraries}
use dumb_browser.Net.RequestInfo.{make_ctx, new_request_info}
use dumb_browser.Net.RequestInfo.Made.{make_ctx_lem}
use package.dumb_browser.Net.WebSocket.{WebSocketProxy, remake_ctx}

module _ (lib : NetLibraries) where
  module _ (s : WebSocketProxy lib) where
    pub request_url-remake_ctx : (remake_ctx lib s).request_url ≡ s.request.url
    request_url-remake_ctx =
        (make_ctx_lem lib s.request s.process_id s.frame_tree_node_id s.request_id s.browser_context
          s.ctx).1

    pub index-remake_ctx : (remake_ctx lib s).next_url_request_index ≡ 0
    index-remake_ctx =
        (make_ctx_lem lib s.request s.process_id s.frame_tree_node_id s.request_id s.browser_context
          s.ctx).3.0

    pub request_identifier-remake_ctx : (remake_ctx lib s).request_identifier ≡ s.request_id
    request_identifier-remake_ctx =
        (make_ctx_lem lib s.request s.process_id s.frame_tree_node_id s.request_id s.browser_context
          s.ctx).0

  pub tab_origin-remake_ctx :
      (s : WebSocketProxy lib)
      → s.request.isolation_info ≡ none
      → (remake_ctx lib s).tab_origin ≡ lib.empty_url
  unfolding make_ctx new_request_info
  tab_origin-remake_ctx s i = elim (Option-cases s.ctx) [
    | inl n ↦ rw (n, i) refl
    | inr (c, n) ↦ rw (n, i) refl
  ]
