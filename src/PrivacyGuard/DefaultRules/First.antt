-- ===== src/PrivacyGuard/DefaultRules/First.antt =====
-- Rules 1 to 7 of `GetDefaultPerSiteRules` in
-- dumb/components/privacy_guard/core/url_purify_default_rules.cc, in the order of the source.
use dumb_browser.Base.{none, some, [], ◌∷◌}
use dumb_browser.PrivacyGuard.Rule.{UrlPurifyRule}

abbrev pub google : UrlPurifyRule
google = record {
  name = "Google";
  url_pattern = "(https:\\/\\/|http:\\/\\/)([a-zA-Z0-9-]*\\.)?(google)(\\.[a-zA-Z]{2,})(.*\\?.*)";
  query_patterns =
      "ved" ∷ "bi[a-zA-Z]" ∷ "gfe_[a-zA-Z]" ∷ "ei" ∷ "source" ∷ "gs_[a-zA-Z]" ∷ "site" ∷ "oq"
      ∷ "esrc" ∷ "uact" ∷ "cd" ∷ "cad" ∷ "gws_[a-zA-Z]" ∷ "atyp" ∷ "vet" ∷ "zx" ∷ "_u" ∷ "je"
      ∷ "dcr" ∷ "ie" ∷ "sei" ∷ "sa" ∷ "dpr" ∷ "hl" ∷ "btn[a-zA-Z]" ∷ "sa" ∷ "usg" ∷ "cd" ∷ "cad"
      ∷ "uact" ∷ [];
  url_exceptions = some (
      ".*(.googlevideo.com).*" ∷ ".*(mail\\.google\\.).*(\\/mail\\/u\\/0).*"
      ∷ ".*(google\\.).*(\\/upload)?(\\/drive)\\/.*" ∷ ".*(docs\\.google\\.).*\\/.*"
      ∷ ".*(accounts\\.google\\.).*"
      ∷ ".*(google\\.).*\\/searchbyimage\\?image_url=[^\\/|\\?|&]*(\\/|&(amp;)?)?"
      ∷ ".*(hangouts\\.google\\.).*\\/webchat.*zx=[^\\/|\\?|&]*(\\/|&(amp;)?)?"
      ∷ ".*(client-channel\\.google\\.).*\\/client-channel.*zx=[^\\/|\\?|&]*(\\/|&(amp;)?)?"
      ∷ ".*(google\\.).*\\/complete\\/search\\?.*gs_[a-zA-Z]*=[^\\/|\\?|&]*(\\/|&(amp;)?)?"
      ∷ ".*(google\\.).*\\/s\\?tbm=map.*gs_[a-zA-Z]*=[^\\/|\\?|&]*(\\/|&(amp;)?)?"
      ∷ ".*(news\\.google\\.).*\\?hl=.*"
      ∷ ".*(google\\.).*\\/setprefs\\?.*hl=[^\\/|\\?|&]*(\\/|&(amp;)?)?"
      ∷ ".*(google\\.).*\\/appsactivity\\/.*" ∷ ".*(google\\.).*\\/recaptcha\\/.*" ∷ []);
}

abbrev pub amazon : UrlPurifyRule
amazon = record {
  name = "Amazon";
  url_pattern = "^https?:\\/\\/(?:[a-z0-9-]+\\.)*?amazon(?:\\.[a-z]{2,}){1,}";
  query_patterns =
      "p[fd]_rd_[a-z]*" ∷ "qid" ∷ "srs?" ∷ "__mk_[a-z]{1,3}_[a-z]{1,3}" ∷ "spIA" ∷ "ms3_c"
      ∷ "[a-z%0-9]*ie" ∷ "refRID" ∷ "colii?d" ∷ "[^a-z%0-9]adId" ∷ "qualifier" ∷ "_encoding"
      ∷ "smid" ∷ "field-lbr_brands_browse-bin" ∷ "ref_?" ∷ "th" ∷ "sprefix" ∷ "crid" ∷ "keywords"
      ∷ "cv_ct_[a-z]+" ∷ "linkCode" ∷ "creativeASIN" ∷ "ascsubtag" ∷ "aaxitk" ∷ "hsa_cr_id"
      ∷ "sb-ci-[a-z]+" ∷ "rnid" ∷ "dchild" ∷ "camp" ∷ "creative" ∷ "s" ∷ [];
  url_exceptions = some (
      "^https?:\\/\\/(?:[a-z0-9-]+\\.)*?amazon(?:\\.[a-z]{2,}){1,}\\/gp\\/.*?(?:redirector.html|cart\\/ajax-update.html|video\\/api\\/)"
      ∷ "^https?:\\/\\/(?:[a-z0-9-]+\\.)*?amazon(?:\\.[a-z]{2,}){1,}\\/(?:hz\\/reviews-render\\/ajax\\/|message-us\\?|s\\?)"
      ∷ []);
}

abbrev pub amazon_search : UrlPurifyRule
amazon_search = record {
  name = "Amazon Search";
  url_pattern = "^https?:\\/\\/(?:[a-z0-9-]+\\.)*?amazon(?:\\.[a-z]{2,}){1,}\\/s\\?";
  query_patterns =
      "p[fd]_rd_[a-z]*" ∷ "qid" ∷ "srs?" ∷ "__mk_[a-z]{1,3}_[a-z]{1,3}" ∷ "spIA" ∷ "ms3_c"
      ∷ "[a-z%0-9]*ie" ∷ "refRID" ∷ "colii?d" ∷ "[^a-z%0-9]adId" ∷ "qualifier" ∷ "_encoding"
      ∷ "smid" ∷ "field-lbr_brands_browse-bin" ∷ "ref_?" ∷ "th" ∷ "sprefix" ∷ "crid" ∷ "keywords"
      ∷ "cv_ct_[a-z]+" ∷ "linkCode" ∷ "creativeASIN" ∷ "ascsubtag" ∷ "aaxitk" ∷ "hsa_cr_id"
      ∷ "sb-ci-[a-z]+" ∷ "rnid" ∷ "dchild" ∷ "camp" ∷ "creative" ∷ [];
  url_exceptions = none;
}

abbrev pub youtube : UrlPurifyRule
youtube = record {
  name = "Youtube";
  url_pattern = "^https?:\\/\\/(?:[a-z0-9-]+\\.)*?youtube\\.com";
  query_patterns = "feature" ∷ "gclid" ∷ "kw" ∷ [];
  url_exceptions = none;
}

abbrev pub facebook : UrlPurifyRule
facebook = record {
  name = "Facebook";
  url_pattern = "^https?:\\/\\/(?:[a-z0-9-]+\\.)*?facebook\\.com";
  query_patterns =
      "hc_[a-z_%\\[\\]0-9]*" ∷ "[a-z]*ref[a-z]*" ∷ "__tn__" ∷ "eid"
      ∷ "__xts__(?:\\[|%5B)\\d(?:\\]|%5D)" ∷ "comment_tracking" ∷ "dti" ∷ "app" ∷ "video_source"
      ∷ "ftentidentifier" ∷ "pageid" ∷ "padding" ∷ "ls_ref" ∷ "action_history" ∷ [];
  url_exceptions = some (
      "^https?:\\/\\/(?:[a-z0-9-]+\\.)*?facebook\\.com\\/(plugins|ajax)\\/"
      ∷ "^https?:\\/\\/(?:[a-z0-9-]+\\.)*?facebook\\.com\\/dialog\\/(?:share|send)"
      ∷ "^https?:\\/\\/(?:[a-z0-9-]+\\.)*?facebook\\.com\\/groups\\/member_bio\\/bio_dialog\\/"
      ∷ "^https?:\\/\\/(?:[a-z0-9-]+\\.)*?facebook\\.com\\/photo\\.php\\?"
      ∷ "^https?:\\/\\/(?:[a-z0-9-]+\\.)*?facebook\\.com\\/privacy\\/specific_audience_selector_dialog\\/"
      ∷ "^https?:\\/\\/(?:[a-z0-9-]+\\.)*?facebook\\.com\\/photo\\/download\\/" ∷ []);
}

abbrev pub instagram : UrlPurifyRule
instagram = record {
  name = "Instagram";
  url_pattern = "^https?:\\/\\/(?:[a-z0-9-]+\\.)*?instagram\\.com";
  query_patterns = "igshid" ∷ [];
  url_exceptions = none;
}

abbrev pub steam : UrlPurifyRule
steam = record {
  name = "Steam";
  url_pattern = "^https?:\\/\\/(?:[a-z0-9-]+\\.)*?steampowered\\.com";
  query_patterns = "snr" ∷ [];
  url_exceptions = none;
}
