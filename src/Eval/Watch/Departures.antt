-- ===== src/Eval/Watch/Departures.antt =====
-- A push while a monitor departs.
use user_mode_nixos.Prelude.{
  true, false, List, [], ◌∷◌, ◌++◌, map, any, any-append, ◌≡◌, refl, ap, ◌∙◌, arith,
}
use user_mode_nixos.Eval.Channel.{Pushed}
use user_mode_nixos.Eval.Watch.{Monitor, Run, offer, is_broken, offer_all, push}

offer_all-broken :
    (event : Pushed) (leaving : Monitor) (before behind : List Monitor)
    → any is_broken before ≡ false
    → is_broken leaving ≡ true
    → offer_all event (before ++ (leaving ∷ behind))
      ≡ map (offer event) before ++ (leaving ∷ behind)
unfolding offer_all
offer_all-broken event leaving [] behind h b = rw b refl
offer_all-broken event leaving (k ∷ ms) behind h b =
    let here : is_broken k ≡ false = ground arith in
    rw here
      (ap (λ l. offer event k ∷ l) (offer_all-broken event leaving ms behind (ground arith) b))

-- Where the first watcher that nobody receives for is one whose monitor has left and is not taken out
-- yet, a push raises: the event is in the backlog, and the watchers before that one were offered it,
-- but no watcher behind it was.
pub departing_monitor_blocks :
    (event : Pushed) (leaving : Monitor) (before behind : List Monitor) (r : Run)
    → r.monitors ≡ before ++ (leaving ∷ behind)
    → any is_broken before ≡ false
    → is_broken leaving ≡ true
    → ((push event r).failed ≡ true)
      × ((push event r).backlog ≡ r.backlog ++ (event ∷ []))
      × ((push event r).monitors ≡ map (offer event) before ++ (leaving ∷ behind))
unfolding push
departing_monitor_blocks event leaving before behind r h n b = rw h (
  any-append is_broken before (leaving ∷ behind) ∙ ground arith,
  refl,
  offer_all-broken event leaving before behind n b,
)
