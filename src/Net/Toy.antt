-- ===== src/Net/Toy.antt =====
-- A small network library to run dumb/browser/net on: URLs and header blocks are texts, a header
-- block is the name of its only header, request headers are lists of names, "chrome:" is the only
-- internal URL.
use dumb_browser.Base.{String, true, false, not, none, List, [], ◌∷◌, if◌then◌else◌, str_eq}
use dumb_browser.Net.Libraries.{NetLibraries, ResourceRequest}

abbrev pub toy : NetLibraries
toy = record {
  Url = String;
  empty_url = "";
  is_empty_url = λ u. str_eq u "";
  spec = λ u. u;
  parse_url = λ s. s;
  is_extension_scheme = λ u. false;
  is_chrome_scheme = λ u. str_eq u "chrome:";
  is_http_or_https = λ u. not (str_eq u "chrome:");
  Origin = String;
  opaque_origin = "null";
  create_origin = λ u. u;
  origin_url = λ o. o;
  is_same_origin = str_eq;
  is_same_domain_or_host = str_eq;
  ResponseHeaders = String;
  raw_headers = λ h. h;
  parse_headers = λ s. s;
  remove_header = λ h n. if str_eq h n then "" else h;
  redirect_location = λ h. none;
  response_code = λ h. 200;
  referrer_policy_header = λ h. none;
  ParsedHeaders = Unit;
  populate_parsed_headers = λ h u. tt;
  RequestHeaders = List String;
  empty_request_headers = [];
  remove_request_header = λ h n. h;
  set_request_header = λ h n v. n ∷ h;
  get_request_header = λ h n. none;
  merge_from = λ h g. h;
  get_method = "GET";
  SiteForCookies = Unit;
  ReferrerPolicy = Unit;
  clear_on_transition = tt;
  ResourceType = Unit;
  invalid_resource_type = tt;
  IsolationKey = Unit;
  empty_isolation_key = tt;
  IsolationInfo = Unit;
  network_isolation_key = λ i. tt;
  top_frame_origin = λ i. none;
  create_for_redirect = λ i o. i;
}

abbrev pub toy_request : ResourceRequest toy
toy_request = record {
  url = "http:a";
  method = "GET";
  request_initiator = none;
  referrer = "";
  referrer_policy = tt;
  resource_type = tt;
  isolation_info = none;
  request_body = none;
  headers = [];
  site_for_cookies = tt;
  update_first_party_url_on_redirect = false;
  is_main_frame = true;
}
