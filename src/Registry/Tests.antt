-- ===== src/Registry/Tests.antt =====
-- Two users with three connections, and galleries 50 and 60.
use progetto_sdcc.Prelude.{
  ℕ, ◌≡◌, ◌≢◌, ◌↔◌, refl, false, Option, none, some, List, [], ◌∷◌, Error, ◌==◌, if◌then◌else◌,
}
use progetto_sdcc.Prelude.Dict.{lookup, insert, entries}
use progetto_sdcc.Registry.Nested.{put, ensure}
use progetto_sdcc.Registry.{Registry, new, targets, deliver, notify, subscribe, create_client, link}
use progetto_sdcc.Registry.Wellformed.{Inv}
use progetto_sdcc.Registry.Effects.{follows, user_of}
use progetto_sdcc.Registry.Refinement.{
  Op, creates, subscribes, joins, leaves, removes, apply, run, spec_run, view, nobody, run-new,
  AllFresh,
}
use progetto_sdcc.Registry.Leaks.{no_leak}
use progetto_sdcc.Registry.Delivery.{Delivered}
use progetto_sdcc.Registry.Interleaving.{notify-Delivered}

abbrev history : List Op
history =
    creates 1 7 100
    ∷ creates 2 7 200
    ∷ creates 3 8 300
    ∷ subscribes 1 50
    ∷ subscribes 3 50
    ∷ joins 60 7
    ∷ removes 1
    ∷ leaves 60 7
    ∷ []

history-fresh : AllFresh history nobody
history-fresh = (refl, (refl, (refl, (tt, (tt, (tt, (tt, (tt, tt))))))))

run-new_example : view (run history new) ≡ spec_run history nobody
run-new_example = (run-new history history-fresh).1

busy : Registry
busy = run history new

busy-Inv : Inv busy
unfolding busy
busy-Inv = (run-new history history-fresh).0

no_leak_example :
    ((lookup 60 busy.galleries ≡ none) ↔ ((c : ℕ) → follows busy c 60 ≡ false))
    × ((lookup 60 busy.clients ≡ none) ↔ ((c : ℕ) → user_of busy c ≢ some 60))
unfolding busy
no_leak_example = no_leak history 60 history-fresh

-- The stream with handle 300 is broken.
abbrev send : ℕ → ℕ → Option Error
send stream n = if stream == 300 then some (Error.plain "broken pipe") else none

notify-Delivered_example :
    Delivered send 5 50 busy
      (run (removes 2 ∷ []) busy)
      (deliver send 5 (targets 50 busy) (run (removes 2 ∷ []) busy))
notify-Delivered_example = notify-Delivered send 5 50 busy (removes 2 ∷ []) busy-Inv (tt, tt)

broken_stream :
    (notify send 5 50 (run (creates 3 8 300 ∷ subscribes 3 50 ∷ []) new)).1
    ≡ (3, some (Error.plain "broken pipe")) ∷ []
unfolding notify new apply lookup deliver targets subscribe create_client insert link put ensure
    entries
broken_stream = refl
