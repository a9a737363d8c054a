-- ===== src/Net/Libraries.antt =====
-- What dumb/browser/net takes from Chromium: GURL, url::Origin, header blocks, isolation info, and
-- `network::ResourceRequest` with the fields that the sources read or write.
use dumb_browser.Base.{ℕ, ◌≡◌, String, Bool, true, false, Option, List, if◌then◌else◌}

pub record NetLibraries : Type 1 where
  pub Url : Type 0
  pub empty_url : Url
  pub is_empty_url : Url → Bool
  pub spec : Url → String
  pub parse_url : String → Url
  -- SchemeIs(extensions::kExtensionScheme), SchemeIs(content::kChromeUIScheme), SchemeIsHTTPOrHTTPS
  pub is_extension_scheme : Url → Bool
  pub is_chrome_scheme : Url → Bool
  pub is_http_or_https : Url → Bool
  pub Origin : Type 0
  -- `url::Origin()`
  pub opaque_origin : Origin
  pub create_origin : Url → Origin
  pub origin_url : Origin → Url
  pub is_same_origin : Origin → Origin → Bool
  -- `SameDomainOrHost(url, origin, INCLUDE_PRIVATE_REGISTRIES)`
  pub is_same_domain_or_host : Url → Origin → Bool
  pub ResponseHeaders : Type 0
  pub raw_headers : ResponseHeaders → String
  pub parse_headers : String → ResponseHeaders
  pub remove_header : ResponseHeaders → String → ResponseHeaders
  -- `IsRedirect(&location)`, `response_code()`, `GetReferrerPolicyHeader`
  pub redirect_location : ResponseHeaders → Option String
  pub response_code : ResponseHeaders → ℕ
  pub referrer_policy_header : ResponseHeaders → Option String
  pub ParsedHeaders : Type 0
  pub populate_parsed_headers : ResponseHeaders → Url → ParsedHeaders
  pub RequestHeaders : Type 0
  pub empty_request_headers : RequestHeaders
  pub remove_request_header : RequestHeaders → String → RequestHeaders
  pub set_request_header : RequestHeaders → String → String → RequestHeaders
  pub get_request_header : RequestHeaders → String → Option String
  pub merge_from : RequestHeaders → RequestHeaders → RequestHeaders
  -- `HttpRequestHeaders::kGetMethod`
  pub get_method : String
  pub SiteForCookies : Type 0
  pub ReferrerPolicy : Type 0
  -- `CLEAR_ON_TRANSITION_FROM_SECURE_TO_INSECURE`
  pub clear_on_transition : ReferrerPolicy
  pub ResourceType : Type 0
  pub invalid_resource_type : ResourceType
  pub IsolationKey : Type 0
  pub empty_isolation_key : IsolationKey
  pub IsolationInfo : Type 0
  pub network_isolation_key : IsolationInfo → IsolationKey
  pub top_frame_origin : IsolationInfo → Option Origin
  pub create_for_redirect : IsolationInfo → Origin → IsolationInfo

-- A part of a request body: bytes, or anything else (a file, a blob, a pipe).
pub data DataElement : Type 0 where
  bytes : List ℕ → DataElement
  other_element : DataElement

pub record ResourceRequest (lib : NetLibraries) : Type 0 where
  pub url : lib.Url
  pub method : String
  pub request_initiator : Option lib.Origin
  pub referrer : lib.Url
  pub referrer_policy : lib.ReferrerPolicy
  pub resource_type : lib.ResourceType
  -- `trusted_params->isolation_info`
  pub isolation_info : Option lib.IsolationInfo
  pub request_body : Option (List DataElement)
  pub headers : lib.RequestHeaders
  pub site_for_cookies : lib.SiteForCookies
  pub update_first_party_url_on_redirect : Bool
  pub is_main_frame : Bool

-- `net::RedirectInfo`, with the fields that the sources read.
pub record RedirectInfo (lib : NetLibraries) : Type 0 where
  pub new_url : lib.Url
  pub new_method : String
  pub new_site_for_cookies : lib.SiteForCookies
  pub new_referrer : String
  pub new_referrer_policy : lib.ReferrerPolicy

-- `RedirectInfo::ComputeRedirectInfo` over a request, whether the first-party URL is updated, the
-- response code, the new URL and the referrer policy header; its last three flags are all false.
abbrev pub ComputeRedirectInfo : NetLibraries → Type 0
ComputeRedirectInfo lib =
    ResourceRequest lib → Bool → ℕ → lib.Url → Option String → RedirectInfo lib

-- What HttpResponseHeaders documents of RemoveHeader and of a copy through the raw text, with
-- `has` for HasHeader and `same_name` for the comparison of header names.
pub record RemovesHeaders (lib : NetLibraries) (has : lib.ResponseHeaders → String → Bool)
    (same_name : String → String → Bool) : Type 0 where
  pub has-remove_header :
      (h : lib.ResponseHeaders) (n m : String)
      → has (lib.remove_header h n) m ≡ (if same_name n m then false else has h m)
  pub has-copy :
      (h : lib.ResponseHeaders) (m : String)
      → has (lib.parse_headers (lib.raw_headers h)) m ≡ has h m
  pub same_name_refl : (n : String) → same_name n n ≡ true
