-- ===== src/PrivacyGuard/DefaultRules/Third.antt =====
-- Rules 23 to 35 of `GetDefaultPerSiteRules` in
-- dumb/components/privacy_guard/core/url_purify_default_rules.cc, in the order of the source.
use dumb_browser.Base.{none, some, [], ◌∷◌}
use dumb_browser.PrivacyGuard.Rule.{UrlPurifyRule}

abbrev pub taobao : UrlPurifyRule
taobao = record {
  name = "Taobao";
  url_pattern = "^https?:\\/\\/(?:[a-z0-9-]+\\.)*?taobao\\.com";
  query_patterns =
      "price" ∷ "sourceType" ∷ "suid" ∷ "ut_sk" ∷ "un" ∷ "share_crt_v" ∷ "sp_tk" ∷ "cpp"
      ∷ "shareurl" ∷ "short_name" ∷ "app" ∷ "scm[_a-z-]*" ∷ "pvid" ∷ "algo_expid" ∷ "algo_pvid"
      ∷ "ns" ∷ "abbucket" ∷ "ali_refid" ∷ "ali_trackid" ∷ "acm" ∷ "utparam" ∷ "pos" ∷ "abtest"
      ∷ "trackInfo" ∷ "utkn" ∷ "scene" ∷ "mytmenu" ∷ "turing_bucket" ∷ "lygClk" ∷ "impid" ∷ "bftTag"
      ∷ "bftRwd" ∷ "spm" ∷ "initiative_id" ∷ "sourceId" ∷ "ssid" ∷ "commend" ∷ "shareUniqueId"
      ∷ "bxsign" ∷ "app_pvid" ∷ "ptl" ∷ "union_lens" ∷ [];
  url_exceptions = none;
}

abbrev pub tmall : UrlPurifyRule
tmall = record {
  name = "Tmall";
  url_pattern = "^https?:\\/\\/(?:[a-z0-9-]+\\.)*?tmall\\.com";
  query_patterns =
      "price" ∷ "sourceType" ∷ "suid" ∷ "ut_sk" ∷ "un" ∷ "share_crt_v" ∷ "sp_tk" ∷ "cpp"
      ∷ "shareurl" ∷ "short_name" ∷ "app" ∷ "scm[_a-z-]*" ∷ "pvid" ∷ "algo_expid" ∷ "algo_pvid"
      ∷ "ns" ∷ "abbucket" ∷ "ali_refid" ∷ "ali_trackid" ∷ "acm" ∷ "utparam" ∷ "pos" ∷ "abtest"
      ∷ "trackInfo" ∷ "user_number_id" ∷ "utkn" ∷ "scene" ∷ "mytmenu" ∷ "turing_bucket" ∷ "lygClk"
      ∷ "impid" ∷ "bftTag" ∷ "bftRwd" ∷ "activity_id" ∷ "from" ∷ "areaId" ∷ "user_id" ∷ "cat_id"
      ∷ "is_b" ∷ "rn" ∷ [];
  url_exceptions = none;
}

abbrev pub tb_cn : UrlPurifyRule
tb_cn = record {
  name = "tb.cn";
  url_pattern = "^https?:\\/\\/(?:[a-z0-9-]+\\.)*?tb\\.cn";
  query_patterns = "sm" ∷ [];
  url_exceptions = none;
}

abbrev pub aliexpress : UrlPurifyRule
aliexpress = record {
  name = "Aliexpress";
  url_pattern = "^https?:\\/\\/(?:[a-z0-9-]+\\.)*?aliexpress(?:\\.[a-z]{2,}){1,}";
  query_patterns =
      "ws_ab_test" ∷ "btsid" ∷ "algo_expid" ∷ "algo_pvid" ∷ "gps-id" ∷ "scm[_a-z-]*" ∷ "cv" ∷ "af"
      ∷ "mall_affr" ∷ "sk" ∷ "dp" ∷ "terminal_id" ∷ "aff_request_id" ∷ [];
  url_exceptions = none;
}

abbrev pub bilibili : UrlPurifyRule
bilibili = record {
  name = "Bilibili";
  url_pattern = "^https?:\\/\\/(?:[a-z0-9-]+\\.)*?bilibili\\.com";
  query_patterns = "callback" ∷ "spm_id_from" ∷ "from_source" ∷ "from" ∷ "seid" ∷ [];
  url_exceptions = some ("^https?:\\/\\/api\\.bilibili\\.com" ∷ []);
}

abbrev pub goodoldgames : UrlPurifyRule
goodoldgames = record {
  name = "GoodOldGames";
  url_pattern = "^https?:\\/\\/(?:[a-z0-9-]+\\.)*?gog\\.com";
  query_patterns = "track_click" ∷ "link_id" ∷ [];
  url_exceptions = none;
}

abbrev pub bestbuy : UrlPurifyRule
bestbuy = record {
  name = "BestBuy";
  url_pattern = "^https?:\\/\\/(?:[a-z0-9-]+\\.)*?bestbuy\\.com";
  query_patterns = "irclickid" ∷ "irgwc" ∷ "loc" ∷ "acampID" ∷ "mpid" ∷ "intl" ∷ [];
  url_exceptions = none;
}

abbrev pub tiktok : UrlPurifyRule
tiktok = record {
  name = "TikTok";
  url_pattern = "^https?:\\/\\/(?:[a-z0-9-]+\\.)*?tiktok\\.com";
  query_patterns =
      "u_code" ∷ "preview_pb" ∷ "_d" ∷ "timestamp" ∷ "user_id" ∷ "share_app_name" ∷ "share_iid"
      ∷ "source" ∷ [];
  url_exceptions = none;
}

abbrev pub humble_bundle : UrlPurifyRule
humble_bundle = record {
  name = "Humble Bundle";
  url_pattern = "^https?:\\/\\/(?:[a-z0-9-]+\\.)*?humblebundle\\.com";
  query_patterns = "partner" ∷ [];
  url_exceptions = none;
}

abbrev pub epic_games : UrlPurifyRule
epic_games = record {
  name = "Epic Games";
  url_pattern = "^https?:\\/\\/(?:[a-z0-9-]+\\.)*?epicgames\\.com";
  query_patterns = "epic_affiliate" ∷ "epic_gameId" ∷ [];
  url_exceptions = none;
}

abbrev pub medium : UrlPurifyRule
medium = record {
  name = "Medium";
  url_pattern = "^https?:\\/\\/(?:[a-z0-9-]+\\.)*?medium\\.com";
  query_patterns = "source" ∷ [];
  url_exceptions = none;
}

abbrev pub sina_weibo : UrlPurifyRule
sina_weibo = record {
  name = "Sina Weibo";
  url_pattern = "^https?:\\/\\/(?:[a-z0-9-]+\\.)*?weibo\\.(com|cn)";
  query_patterns = "sourceType" ∷ "from" ∷ "wm" ∷ [];
  url_exceptions = none;
}

abbrev pub wechat : UrlPurifyRule
wechat = record {
  name = "WeChat";
  url_pattern = "^https?:\\/\\/mp.weixin.qq\\.com";
  query_patterns = "mpshare" ∷ "chksm" ∷ [];
  url_exceptions = none;
}
