-- ===== src/Lib.antt =====
-- Dumb Browser: the parts of the browser that are its own code, modelled from the C++ under dumb/.
--
-- The URL purifier (PrivacyGuard.antt and its children) is the product's own feature. It stands in
-- the network service: dumb/services/network/privacy_guard/url_purify_delegate.{h,cc} compiles the
-- rules of dumb/components/privacy_guard/core (PrivacyGuard/Rule, PrivacyGuard/DefaultRules) into
-- regexes (PrivacyGuard/Matcher: QueryMatcher) and removes what they match from a URL's query
-- (PrivacyGuard/Delegate: TruncateURLParameters, TryApplyMatcher, OnNewRules, SetEnabled). RE2, GURL
-- and base::JoinString are the record UrlLibraries of PrivacyGuard/Libraries. The registration of its
-- preference is PrivacyGuard/Service.
--
-- The network delegate (NetworkDelegate.antt) is
-- dumb/services/network/network_service_network_delegate.{h,cc}: the hooks that the network service
-- calls for each request. It calls the purifier from OnBeforeURLRequest. The URL loader, the web
-- socket, the network context and the cookie settings are records of what they answer
-- (NetworkDelegate/Libraries). The permission check of OnCanSendReportingReports is modelled up to the
-- question to the client.
--
-- Request interception (Net.antt) runs in the browser process, dumb/browser/net. Net/RequestInfo is
-- url_context.{h,cc} (DumbRequestInfo, MakeCTX), Net/SecurityHeaders is dumb_stp_util.cc, Net/Handler is
-- dumb_request_handler.{h,cc} (the listeners and the callbacks by request identifier), and Net/Loader is
-- the class InProgressRequest of dumb_proxying_url_loader_factory.{h,cc}: its state in Net/Loader, the
-- way to the network in Net/Loader/Requests, the way back in Net/Loader/Responses, redirects in
-- Net/Loader/Redirect, and in Net/Loader/Step its life as a sequence of events. Net/Factory is the
-- class around it in the same files, with the requests as identifiers: what ends a request or the
-- factory is a step of its own. Net/WebSocket is dumb_proxying_web_socket.{h,cc}: its state there, the
-- way of a handshake in Net/WebSocket/Handshake, the response's headers in Net/WebSocket/Headers, and
-- its life as a sequence of events in Net/WebSocket/Step. Net/Ownership is resource_context_data.{h,cc}:
-- the proxies that a profile owns, by address, with the generator of identifiers that they share. A
-- handler's effects on its request (a written redirect URL, a posted task) are values that the request
-- applies. A listener that answers later runs next_callback on the info that its request holds by then,
-- a step of its own: Net/Handler/Resumed for the handler, Net/Loader/Answers and Net/Loader/Later for a
-- request, Net/WebSocket/Answers and Net/WebSocket/Later for a web socket, and Net/Handler/Twice for a
-- listener that answers twice. Calls on mojo pipes are a log of messages. What C++ leaves undefined (a
-- null pointer, an unbound pipe, a callback that was moved away) is a fault of the run (Base/Runs).
--
-- The tab's alert indicator (AlertIndicator.antt) is
-- dumb/browser/ui/views/tabs/alert_indicator_button.{h,cc}: its icons in AlertIndicator/Images, what it
-- takes from views in AlertIndicator/View, the sequences of calls made of it in AlertIndicator/Life,
-- what it shows over them in AlertIndicator/Shown, and what it paints in AlertIndicator/Painting, where
-- opacities are a parameter.
--
-- Base.antt holds what the modules share: integers, lists, association lists, net errors, runs.
--
-- What the browser process adds to Chromium's (Browser.antt): Browser/Flags is dumb/browser/about_flags.cc
-- with dumb/browser/flag_descriptions.cc, dumb/browser/ui/ui_features.cc and the two switches.cc files;
-- Browser/Flags/Applied takes the flags to the command line, where the alert indicator reads its switch;
-- flags_ui, with what else it appends, is a parameter.
-- Browser/Profiles is the privacy guard service of dumb/components/privacy_guard/browser with its factory,
-- dumb/browser/privacy_guard; the base class of the factory, with its map of services, is a parameter.
-- Browser/Preferences is settings_private/prefs_util.cc and version_string.cc.
--
-- Fuel and bounds. The loop over the listeners is the only one on fuel. One round more than there are
-- listeners is enough if no listener moves the index, and a fuel too small is a result of its own. The
-- counts of the purifier are integers without a bound: where every match is non-empty, there are at
-- most as many removals as the query has characters; the end position of a match is reduced modulo 2^64.
--
-- Not modelled: late answers among the other events of a request's life (they come before them, or to a
-- handler alone); logging; start times, which are never read; a web socket's connection handles and
-- authentication data, which are handed on unread; the button's tooltip and class name; the features
-- that no flag names; the contextual identity, which is an interface without an implementation; and the
-- patches of Chromium, whose sources are not in the repository.
pub mod Base
pub mod PrivacyGuard
pub mod Net
pub mod NetworkDelegate
pub mod AlertIndicator
pub mod Browser
