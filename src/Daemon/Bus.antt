-- ===== src/Daemon/Bus.antt =====
-- internal/daemon/bus.go: the fan-out of stream items. A subscriber stays in the store after it was
-- cancelled, as the reader still holds its channel; `live` says whether the bus has it.
pub mod Delivery
use better_nm.Prelude.{
  ℕ, suc, ◌+◌, String, List, [], ◌∷◌, ◌++◌, Bool, true, false, not, ◌&&◌, Option, none, some,
  length, ltb, ◌==◌, if◌then◌else◌,
}
use better_nm.Core.Event.{Event}

pub data ChangeKind : Type 0 where
  status devices wifi profiles active vpn monitor : ChangeKind

pub data StreamItem : Type 0 where
  change : ChangeKind → String → StreamItem
  event : Event → StreamItem

abbrev pub subscriber_buffer : ℕ
subscriber_buffer = 128

pub record Subscriber : Type 0 where
  pub queue : List StreamItem  -- the channel's buffer, oldest first
  pub dropped : ℕ
  pub live : Bool
  pub closed : Bool

pub record Bus : Type 0 where
  pub subs : List (ℕ × Subscriber)
  pub next : ℕ

unfoldable pub new_bus : Bus
new_bus = record { subs = []; next = 0 }

-- The new bus and the subscriber's number.
unfoldable pub subscribe : Bus → Bus × ℕ
subscribe b =
    let s : Subscriber = record { queue = []; dropped = 0; live = true; closed = false } in
    (record { subs = b.subs ++ ((b.next, s) ∷ []); next = b.next + 1 }, b.next)

-- The `select` of `publish` for one subscriber.
unfoldable pub offer : StreamItem → Subscriber → Subscriber
offer item s =
    if not s.live
    then s
    else if ltb (length s.queue) subscriber_buffer
    then record s { queue = s.queue ++ (item ∷ []) }
    else record s { dropped = s.dropped + 1 }

-- The function that `subscribe` returns; it acts once.
unfoldable pub cancel_one : Subscriber → Subscriber
cancel_one s = if s.live then record s { live = false; closed = true } else s

-- The reader takes the oldest item, if there is one.
unfoldable pub take_one : Subscriber → Subscriber × Option StreamItem
take_one s = elim s.queue [ [] ↦ (s, none) | item ∷ rest ↦ (record s { queue = rest }, some item) ]

unfoldable pub map_subs : (Subscriber → Subscriber) → List (ℕ × Subscriber) → List (ℕ × Subscriber)
map_subs f [] = []
map_subs f ((i, s) ∷ rest) = (i, f s) ∷ map_subs f rest

unfoldable pub on_sub :
    ℕ → (Subscriber → Subscriber) → List (ℕ × Subscriber) → List (ℕ × Subscriber)
on_sub n f [] = []
on_sub n f ((i, s) ∷ rest) = (i, if i == n then f s else s) ∷ on_sub n f rest

unfoldable pub publish : StreamItem → Bus → Bus
unfolding map_subs offer
publish item b = record b { subs = map_subs (offer item) b.subs }

unfoldable pub cancel : ℕ → Bus → Bus
unfolding on_sub cancel_one
cancel n b = record b { subs = on_sub n cancel_one b.subs }

unfoldable pub count_live : List (ℕ × Subscriber) → ℕ
count_live [] = 0
count_live ((i, s) ∷ rest) = (if s.live then 1 else 0) + count_live rest

unfoldable pub count : Bus → ℕ
unfolding count_live
count b = count_live b.subs

unfoldable pub find_sub : ℕ → List (ℕ × Subscriber) → Option Subscriber
find_sub n [] = none
find_sub n ((i, s) ∷ rest) = if i == n then some s else find_sub n rest
