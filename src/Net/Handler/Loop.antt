-- ===== src/Net/Handler/Loop.antt =====
-- The listeners' loop against a recursion over the listeners that are left.
use dumb_browser.Base.{
  ℕ, zero, suc, ◌+◌, ◌≤◌, ◌<◌, ◌≡◌, ap, List, [], ◌∷◌, if◌then◌else◌, is_ok, ◌==◌, length, drop,
  All, All-drop, subst, get_elem?-drop, drop_end, Bool-cases, inl, inr, NetError, net_ok, done,
  arith,
}
use dumb_browser.Net.Libraries.{NetLibraries}
use dumb_browser.Net.RequestInfo.{RequestInfo}
use package.dumb_browser.Net.Handler.{Listener, run_listeners}

module _ (lib : NetLibraries) where
  abbrev pub advance : RequestInfo lib → RequestInfo lib
  advance ctx = record ctx { next_url_request_index = ctx.next_url_request_index + 1 }

  -- Call the listeners in order until one answers anything but OK.
  abbrev pub first_stop : List (Listener lib) → RequestInfo lib → NetError × RequestInfo lib
  first_stop [] ctx = (net_ok, ctx)
  first_stop (listener ∷ listeners) ctx =
      let (rv, ctx') = listener (advance ctx) in
      let rest = first_stop listeners ctx' in if is_ok rv then rest else (rv, ctx')

  -- A listener that leaves the handler's bookkeeping in the info alone.
  abbrev pub KeepsInfo : Listener lib → Type 0
  KeepsInfo listener =
      (ctx : RequestInfo lib)
      → ((listener ctx).1.next_url_request_index ≡ ctx.next_url_request_index)
        × ((listener ctx).1.request_identifier ≡ ctx.request_identifier)
        × ((listener ctx).1.event_type ≡ ctx.event_type)
        × ((listener ctx).1.has_new_url ≡ ctx.has_new_url)

  -- With listeners that leave the handler's bookkeeping in the info alone, and fuel for one round
  -- more than there are listeners left, the loop ends, never reads past the end, and has called the
  -- listeners that are left in order up to the first that does not answer OK.
  pub run_listeners-first_stop :
      (fuel : ℕ) (listeners : List (Listener lib)) (ctx : RequestInfo lib)
      → All KeepsInfo listeners
      → ctx.next_url_request_index ≤ length listeners
      → length listeners < fuel + ctx.next_url_request_index
      → run_listeners lib fuel listeners ctx
        ≡ done (first_stop (drop ctx.next_url_request_index listeners) ctx)
  unfolding run_listeners
  run_listeners-first_stop zero listeners ctx keep le lt = absurd (omega arith)
  run_listeners-first_stop (suc fuel) listeners ctx keep le lt =
      elim (Bool-cases (length listeners == ctx.next_url_request_index)) [
        | inl end ↦
            let rest = drop_end listeners ctx.next_url_request_index (ground arith) in
            ground (arith, rest, ap (λ ls. first_stop ls ctx) rest)
        | inr more ↦
            let (l, found, split) =
              get_elem?-drop listeners ctx.next_url_request_index (ground arith) in
            let k =
              (subst (All KeepsInfo) split
                  (All-drop KeepsInfo ctx.next_url_request_index listeners keep)).0
                (advance ctx) in
            ground (
              arith,
              ap (λ ls. first_stop ls ctx) split,
              run_listeners-first_stop fuel listeners (l (advance ctx)).1 keep,
              ap (λ i. first_stop (drop i listeners) (l (advance ctx)).1) k.0,
            )
      ]
