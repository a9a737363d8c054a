-- ===== src/PrivacyGuard/DefaultRules.antt =====
-- dumb/components/privacy_guard/core/url_purify_default_rules.cc. The per-site rules stand in three
-- children, in the order of the source.
mod First
mod Second
mod Third
use dumb_browser.Base.{none, List, [], ◌∷◌}
use dumb_browser.PrivacyGuard.Rule.{UrlPurifyRule}
use First.{google, amazon, amazon_search, youtube, facebook, instagram, steam}
use Second.{
  github, linkedin, lazada, disq_us, mozilla, new_york_times, twitter, reddit, netflix, techcrunch,
  bing, twitch, imdb, wallmart, youku,
}
use Third.{
  taobao, tmall, tb_cn, aliexpress, bilibili, goodoldgames, bestbuy, tiktok, humble_bundle,
  epic_games, medium, sina_weibo, wechat,
}
pub use First.{google}

abbrev pub get_default_global_rules : UrlPurifyRule
get_default_global_rules = record {
  name = "Global";
  url_pattern = ".*";
  query_patterns =
      "utm(?:_[a-z_]*)?" ∷ "ga_[a-z_]+" ∷ "yclid" ∷ "_openstat" ∷ "fb_action_(?:types|ids)"
      ∷ "fb_(?:source|ref)" ∷ "fbclid" ∷ "action_(?:object|type|ref)_map" ∷ "gs_l" ∷ "mkt_tok"
      ∷ "hmb_(?:campaign|medium|source)" ∷ "ref_?" ∷ "referrer" ∷ "gclid" ∷ "otm_[a-z_]*" ∷ "cmpid"
      ∷ "os_ehash" ∷ "_ga" ∷ "__twitter_impression" ∷ "wt_?z?mc" ∷ "wtrid" ∷ "[a-z]?mc" ∷ "dclid"
      ∷ "Echobox" ∷ "spm" ∷ "vn(?:_[a-z]*)+" ∷ "tracking_source" ∷ "from_spm_id" ∷ [];
  url_exceptions = none;
}

-- The rules behind the first one.
abbrev pub later_per_site_rules : List UrlPurifyRule
later_per_site_rules =
    amazon ∷ amazon_search ∷ youtube ∷ facebook ∷ instagram ∷ steam ∷ github ∷ linkedin ∷ lazada
    ∷ disq_us ∷ mozilla ∷ new_york_times ∷ twitter ∷ reddit ∷ netflix ∷ techcrunch ∷ bing ∷ twitch
    ∷ imdb ∷ wallmart ∷ youku ∷ taobao ∷ tmall ∷ tb_cn ∷ aliexpress ∷ bilibili ∷ goodoldgames
    ∷ bestbuy ∷ tiktok ∷ humble_bundle ∷ epic_games ∷ medium ∷ sina_weibo ∷ wechat ∷ []

abbrev pub get_default_per_site_rules : List UrlPurifyRule
get_default_per_site_rules = google ∷ later_per_site_rules
