-- ===== src/PrivacyGuard/DefaultRules/Second.antt =====
-- Rules 8 to 22 of `GetDefaultPerSiteRules` in
-- dumb/components/privacy_guard/core/url_purify_default_rules.cc, in the order of the source.
use dumb_browser.Base.{none, some, [], ◌∷◌}
use dumb_browser.PrivacyGuard.Rule.{UrlPurifyRule}

abbrev pub github : UrlPurifyRule
github = record {
  name = "GitHub";
  url_pattern = "^https?:\\/\\/(?:[a-z0-9-]+\\.)*?github\\.com";
  query_patterns = "email_token" ∷ "email_source" ∷ [];
  url_exceptions = none;
}

abbrev pub linkedin : UrlPurifyRule
linkedin = record {
  name = "LinkedIn";
  url_pattern = "^https?:\\/\\/(?:[a-z0-9-]+\\.)*?linkedin\\.com";
  query_patterns = "refId" ∷ "trk" ∷ "li[a-z]{2}" ∷ [];
  url_exceptions = none;
}

abbrev pub lazada : UrlPurifyRule
lazada = record {
  name = "Lazada";
  url_pattern = "^https?:\\/\\/(?:[a-z0-9-]+\\.)*?lazada\\.com\\.my";
  query_patterns = "ad_src" ∷ "did" ∷ "pa" ∷ "mp" ∷ "impsrc" ∷ "cid" ∷ "pos" ∷ [];
  url_exceptions = none;
}

abbrev pub disq_us : UrlPurifyRule
disq_us = record {
  name = "Disq.us";
  url_pattern = "^https?:\\/\\/(?:[a-z0-9-]+\\.)*?disq\\.us";
  query_patterns = "cuid" ∷ [];
  url_exceptions = none;
}

abbrev pub mozilla : UrlPurifyRule
mozilla = record {
  name = "Mozilla";
  url_pattern = "^https?:\\/\\/(?:[a-z0-9-]+\\.)*?mozilla\\.org";
  query_patterns = "src" ∷ "platform" ∷ "redirect_source" ∷ [];
  url_exceptions = some ("^https?:\\/\\/(?:[a-z0-9-]+\\.)*?mozilla.org\\/api" ∷ []);
}

abbrev pub new_york_times : UrlPurifyRule
new_york_times = record {
  name = "New York Times";
  url_pattern = "^https?:\\/\\/(?:[a-z0-9-]+\\.)*?nytimes\\.com";
  query_patterns = "smid" ∷ [];
  url_exceptions = none;
}

abbrev pub twitter : UrlPurifyRule
twitter = record {
  name = "Times";
  url_pattern = "^https?:\\/\\/(?:[a-z0-9-]+\\.)*?twitter.com";
  query_patterns = "(?:ref_?)?src" ∷ "s" ∷ "cn" ∷ "ref_url" ∷ [];
  url_exceptions = none;
}

abbrev pub reddit : UrlPurifyRule
reddit = record {
  name = "Reddit";
  url_pattern = "^https?:\\/\\/(?:[a-z0-9-]+\\.)*?reddit.com";
  query_patterns =
      "%24deep_link" ∷ "\\$deep_link" ∷ "correlation_id" ∷ "ref_campaign" ∷ "ref_source" ∷ "%243p"
      ∷ "\\$3p" ∷ "%24original_url" ∷ "\\$original_url" ∷ "_branch_match_id" ∷ [];
  url_exceptions = none;
}

abbrev pub netflix : UrlPurifyRule
netflix = record {
  name = "Netflix";
  url_pattern = "^https?:\\/\\/(?:[a-z0-9-]+\\.)*?netflix.com";
  query_patterns = "trackId" ∷ "tctx" ∷ "jb[a-z]*?" ∷ [];
  url_exceptions = none;
}

abbrev pub techcrunch : UrlPurifyRule
techcrunch = record {
  name = "TechCrunch";
  url_pattern = "^https?:\\/\\/(?:[a-z0-9-]+\\.)*?techcrunch\\.com";
  query_patterns = "ncid" ∷ "sr" ∷ "sr_share" ∷ [];
  url_exceptions = none;
}

abbrev pub bing : UrlPurifyRule
bing = record {
  name = "Bing";
  url_pattern = "^https?:\\/\\/(?:[a-z0-9-]+\\.)*?bing(?:\\.[a-z]{2,}){1,}";
  query_patterns = "cvid" ∷ "form" ∷ "sk" ∷ "sp" ∷ "sc" ∷ "qs" ∷ "qp" ∷ [];
  url_exceptions =
      some ("^https?:\\/\\/(?:[a-z0-9-]+\\.)*?bing(?:\\.[a-z]{2,}){1,}\\/WS\\/redirect\\/" ∷ []);
}

abbrev pub twitch : UrlPurifyRule
twitch = record {
  name = "Twitch";
  url_pattern = "^https?:\\/\\/(?:[a-z0-9-]+\\.)*?twitch\\.com";
  query_patterns = "tt_medium" ∷ "tt_content" ∷ [];
  url_exceptions = none;
}

abbrev pub imdb : UrlPurifyRule
imdb = record {
  name = "IMDB";
  url_pattern = "^https?:\\/\\/(?:[a-z0-9-]+\\.)*?imdb\\.com";
  query_patterns = "ref_" ∷ "pf_rd_[a-z]*" ∷ [];
  url_exceptions = none;
}

abbrev pub wallmart : UrlPurifyRule
wallmart = record {
  name = "Wallmart";
  url_pattern = "^https?:\\/\\/(?:[a-z0-9-]+\\.)*?walmart\\.com";
  query_patterns = "u1" ∷ "ath[a-z]*" ∷ [];
  url_exceptions = none;
}

abbrev pub youku : UrlPurifyRule
youku = record {
  name = "Youku";
  url_pattern = "^https?:\\/\\/(?:[a-z0-9-]+\\.)*?youku\\.com";
  query_patterns = "tpa" ∷ [];
  url_exceptions = none;
}
