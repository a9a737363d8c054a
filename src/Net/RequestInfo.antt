-- ===== src/Net/RequestInfo.antt =====
-- `DumbRequestInfo` and `MakeCTX` of dumb/browser/net/url_context.{h,cc}. A pointer to a field of
-- the request that owns the info is a Boolean here: whether it is set.
pub mod Made
use dumb_browser.Base.{
  ℕ, String, Bool, true, false, not, Option, none, some, List, [], ◌∷◌, ◌++◌, value_or, str_eq,
}
use dumb_browser.Net.Libraries.{NetLibraries, DataElement, bytes, other_element, ResourceRequest}

pub data EventType : Type 0 where
  on_before_request on_before_start_transaction on_headers_received : EventType
  on_can_get_cookies on_can_set_cookies unknown_event_type : EventType

pub data BlockedBy : Type 0 where
  not_blocked ad_blocked other_blocked : BlockedBy

pub record RequestInfo (lib : NetLibraries) : Type 0 where
  pub method : String
  pub request_url : lib.Url
  pub tab_origin : lib.Url
  pub tab_url : lib.Url
  pub initiator_url : lib.Url
  pub internal_redirect : Bool
  pub redirect_source : lib.Url
  pub referrer : lib.Url
  pub referrer_policy : lib.ReferrerPolicy
  pub new_referrer : Option lib.Url
  pub new_url_spec : String
  pub allow_brave_shields : Bool
  pub allow_ads : Bool
  pub allow_http_upgradable_resource : Bool
  pub allow_referrers : Bool
  pub is_webtorrent_disabled : Bool
  pub render_process_id : ℕ
  pub frame_tree_node_id : ℕ
  pub request_identifier : ℕ
  pub next_url_request_index : ℕ
  -- The address of the browser context.
  pub browser_context : Option ℕ
  pub set_headers : List String
  pub removed_headers : List String
  pub original_response_headers : Option lib.ResponseHeaders
  pub has_override_response_headers : Bool
  pub has_allowed_unsafe_redirect_url : Bool
  pub event_type : EventType
  pub blocked_by : BlockedBy
  pub mock_data_url : String
  pub ipfs_gateway_url : lib.Url
  pub ipfs_auto_fallback : Bool
  pub network_isolation_key : lib.IsolationKey
  pub resource_type : lib.ResourceType
  pub upload_data : List ℕ
  pub has_new_url : Bool

module _ (lib : NetLibraries) where
  open lib use {empty_url}

  unfoldable pub new_request_info : RequestInfo lib
  new_request_info = record {
    method = "";
    request_url = empty_url;
    tab_origin = empty_url;
    tab_url = empty_url;
    initiator_url = empty_url;
    internal_redirect = false;
    redirect_source = empty_url;
    referrer = empty_url;
    referrer_policy = lib.clear_on_transition;
    new_referrer = none;
    new_url_spec = "";
    allow_brave_shields = true;
    allow_ads = false;
    allow_http_upgradable_resource = false;
    allow_referrers = false;
    is_webtorrent_disabled = false;
    render_process_id = 0;
    frame_tree_node_id = 0;
    request_identifier = 0;
    next_url_request_index = 0;
    browser_context = none;
    set_headers = [];
    removed_headers = [];
    original_response_headers = none;
    has_override_response_headers = false;
    has_allowed_unsafe_redirect_url = false;
    event_type = unknown_event_type;
    blocked_by = not_blocked;
    mock_data_url = "";
    ipfs_gateway_url = empty_url;
    ipfs_auto_fallback = false;
    network_isolation_key = lib.empty_isolation_key;
    resource_type = lib.invalid_resource_type;
    upload_data = [];
    has_new_url = false;
  }

  unfoldable pub should_mock_request : RequestInfo lib → Bool
  should_mock_request ctx = not (str_eq ctx.mock_data_url "")

  -- The loop over the body's elements, with the bytes gathered so far.
  unfoldable pub append_elements : List DataElement → List ℕ → List ℕ
  append_elements [] upload_data = upload_data
  append_elements (bytes bs ∷ elements) upload_data = append_elements elements (upload_data ++ bs)
  append_elements (other_element ∷ elements) upload_data = append_elements elements upload_data

  unfoldable pub get_upload_data : ResourceRequest lib → List ℕ
  get_upload_data request = elim request.request_body [
    | none ↦ []
    | some elements ↦ append_elements elements []
  ]

  with_isolation_info : Option lib.IsolationInfo → RequestInfo lib → RequestInfo lib
  with_isolation_info none ctx = ctx
  with_isolation_info (some info) ctx = record ctx {
    network_isolation_key = lib.network_isolation_key info;
    tab_origin = lib.origin_url (value_or (lib.top_frame_origin info) lib.opaque_origin);
  }

  with_old_ctx : Option (RequestInfo lib) → RequestInfo lib → RequestInfo lib
  with_old_ctx none ctx = ctx
  with_old_ctx (some old_ctx) ctx = record ctx {
    internal_redirect = old_ctx.internal_redirect;
    redirect_source = old_ctx.redirect_source;
  }

  unfoldable pub make_ctx :
      ResourceRequest lib → ℕ → ℕ → ℕ → Option ℕ → Option (RequestInfo lib) → RequestInfo lib
  unfolding new_request_info with_isolation_info with_old_ctx get_upload_data append_elements
  make_ctx request render_process_id frame_tree_node_id request_identifier browser_context old_ctx =
      let ctx : RequestInfo lib = record new_request_info {
        request_identifier = request_identifier;
        request_url = request.url;
        initiator_url = lib.origin_url (value_or request.request_initiator lib.opaque_origin);
        referrer = request.referrer;
        referrer_policy = request.referrer_policy;
        resource_type = request.resource_type;
        is_webtorrent_disabled = true;
        render_process_id = render_process_id;
        frame_tree_node_id = frame_tree_node_id;
      } in
      let ctx = with_old_ctx old_ctx (with_isolation_info request.isolation_info ctx) in
      with_old_ctx old_ctx
        (record ctx { upload_data = get_upload_data request; browser_context = browser_context })
