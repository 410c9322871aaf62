-- ===== src/Registry/Examples.antt =====
-- The theorems on the Registry's hub and streams at concrete inputs, with numbers for configurations.
use agent_plane.Base.{ℕ, true, some, List, [], ◌∷◌, ◌≡◌, ◌↔◌, refl, inl, arith}
use agent_plane.Registry.Version.{parse_uint, is_newer_rv}
use agent_plane.Registry.Version.Laws.{IsNewer, is_newer_rv_iff}
use agent_plane.Registry.Hub.{Frame, Hub, new_hub, subscribe, unsubscribe, broadcast, receive}
use agent_plane.Registry.Hub.Reach.{
  IsSafe, Reach, start, next, subscribes, leaves, broadcasts, receives,
}
use agent_plane.Registry.Hub.Laws.{Reach-IsSafe}
use agent_plane.Registry.Hub.Delivery.{broadcast_each, fill_all, broadcast_each-subs}
use agent_plane.Registry.Watch.{Event, event, ready, ticked, published, handle_watch}
use agent_plane.Registry.Watch.Numbers.{IsIncreasing, versions, handle_watch-IsIncreasing}
use agent_plane.Registry.Watch.Order.{last_version, accept_each, accept_each-highest}
use agent_plane.Registry.Server.{config, watch, bad_request, handle_agent}
use agent_plane.Registry.Server.Routes.{handle_agent-path_of}
use agent_plane.Registry.Watch.Leaving.{broadcasts_of, handle_watch-subs}

is_newer_rv_iff_example : (is_newer_rv "10" "9" ≡ true) ↔ IsNewer "10" "9"
is_newer_rv_iff_example = is_newer_rv_iff "10" "9"

abbrev one_watcher : Hub ℕ
one_watcher = (subscribe new_hub "team/bot").0

abbrev told : Hub ℕ
told = broadcast one_watcher "team/bot" "7" 70

Reach-told : Reach told
Reach-told =
    next (next start (subscribes new_hub "team/bot")) (broadcasts one_watcher "team/bot" "7" 70)

Reach-IsSafe_example : IsSafe (unsubscribe (receive told 0).1 "team/bot" 0)
unfolding subscribe new_hub broadcast receive
Reach-IsSafe_example = Reach-IsSafe (
    next (next Reach-told (receives told 0))
      (leaves (receive told 0).1 "team/bot" 0 (inl (refl, refl))))

abbrev frame : ℕ → Frame ℕ
frame n = record { rv = "5"; cfg = n }

abbrev ten_frames : List (Frame ℕ)
ten_frames =
    frame 1
    ∷ frame 2
    ∷ frame 3
    ∷ frame 4
    ∷ frame 5
    ∷ frame 6
    ∷ frame 7
    ∷ frame 8
    ∷ frame 9
    ∷ frame 10
    ∷ []

broadcast_each-subs_example :
    (broadcast_each one_watcher "team/bot" ten_frames).subs
    ≡ fill_all "team/bot" ten_frames one_watcher.subs
unfolding subscribe new_hub
broadcast_each-subs_example =
    broadcast_each-subs ten_frames one_watcher "team/bot" (omega arith, tt)

abbrev happenings : List (Event ℕ)
happenings =
    published "team/bot" "8" 80
    ∷ ready
    ∷ published "team/bot" "6" 60
    ∷ ticked
    ∷ ready
    ∷ published "team/bot" "9" 90
    ∷ ready
    ∷ []

handle_watch-IsIncreasing_example :
    IsIncreasing (versions (handle_watch told "team" "bot" true (some (70, "7")) happenings).writes)
unfolding subscribe new_hub broadcast parse_uint
handle_watch-IsIncreasing_example =
    handle_watch-IsIncreasing told "team" "bot" true (some (70, "7")) happenings ((refl, tt), tt)
      refl (refl, (tt, (refl, (tt, (tt, (refl, (tt, tt)))))))

accept_each-highest_example :
    parse_uint (
      last_version {C = ℕ} ""
        (accept_each
          (record { rv = "8"; cfg = 1 } ∷ record { rv = "6"; cfg = 2 } ∷ [])
          ("7", event (record { rv = "7"; cfg = 0 }) ∷ [])).1)
    ≡ some 8
unfolding parse_uint
accept_each-highest_example =
    accept_each-highest (record { rv = "8"; cfg = 1 } ∷ record { rv = "6"; cfg = 2 } ∷ []) "7"
      (event (record { rv = "7"; cfg = 0 }) ∷ []) 7 refl refl (refl, (refl, tt))

handle_watch-subs_example :
    (handle_watch told "team" "bot" true (some (70, "7")) happenings).hub.subs
    ≡ broadcasts_of happenings told.subs
handle_watch-subs_example =
    handle_watch-subs told "team" "bot" (some (70, "7")) happenings (Reach-IsSafe Reach-told)

handle_agent-path_of_example :
    (handle_agent "/v1/agents/team/bot/config" ≡ config "team" "bot")
    × (handle_agent "/v1/agents/team/bot/watch" ≡ watch "team" "bot")
handle_agent-path_of_example = handle_agent-path_of "team" "bot" refl refl

too_short :
    handle_agent "/v1/agents/team/config"
    ≡ bad_request "expected /v1/agents/{namespace}/{name}/{config|watch}"
unfolding handle_agent
too_short = refl
