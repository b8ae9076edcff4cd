-- ===== src/Daemon/Bus/Delivery.antt =====
-- What a subscriber receives of what is published, whatever it and the others do.
use mathlib.Core.Path.{subst}
use better_nm.Prelude.{
  ℕ, ltb→lt, ◌+◌, ◌≤◌, List, [], ◌∷◌, ◌++◌, true, false, Option, none, some, length, ltb, ◌==◌,
  if◌then◌else◌, length-append, append_assoc, append-nil, ◌≡◌, refl, ap, ◌∙◌, arith, Bool-cases,
  inl, inr,
}
use better_nm.Daemon.Bus.{
  StreamItem, Subscriber, Bus, subscriber_buffer, offer, cancel_one, take_one, map_subs, on_sub,
  publish, cancel, find_sub,
}

-- `xs` is `ys` with some items left out.
pub data IsPart {ℓ} {A : Type ℓ} : List A → List A → Type ℓ where
  done : IsPart [] []
  keep : {xs ys : List A} (x : A) → IsPart xs ys → IsPart (x ∷ xs) (x ∷ ys)
  skip : {xs ys : List A} (y : A) → IsPart xs ys → IsPart xs (y ∷ ys)

keep_last {ℓ} :
    {A : Type ℓ} {xs ys : List A} (x : A) → IsPart xs ys → IsPart (xs ++ (x ∷ [])) (ys ++ (x ∷ []))
keep_last x done = keep x done
keep_last x (keep y p) = keep y (keep_last x p)
keep_last x (skip y p) = skip y (keep_last x p)

skip_last {ℓ} : {A : Type ℓ} {xs ys : List A} (x : A) → IsPart xs ys → IsPart xs (ys ++ (x ∷ []))
skip_last x done = skip x done
skip_last x (keep y p) = keep y (skip_last x p)
skip_last x (skip y p) = skip y (skip_last x p)

-- What happens to one subscriber: an item is published, or its reader takes one.
pub data Happening : Type 0 where
  published : StreamItem → Happening
  taken : Happening

abbrev pub offered : List Happening → List StreamItem
offered [] = []
offered (published item ∷ hs) = item ∷ offered hs
offered (taken ∷ hs) = offered hs

abbrev pub got : Option StreamItem → List StreamItem → List StreamItem
got none out = out
got (some item) out = out ++ (item ∷ [])

-- The subscriber, and what its reader took, oldest first.
unfoldable pub live_through :
    List Happening → Subscriber × List StreamItem → Subscriber × List StreamItem
live_through [] st = st
live_through (published item ∷ hs) (s, out) = live_through hs (offer item s, out)
live_through (taken ∷ hs) (s, out) =
    let (s', item) = take_one s in live_through hs (s', got item out)

-- `past` is what was published up to now.
record IsFair (past : List StreamItem) (st : Subscriber × List StreamItem) : Type 0 where
  live : st.0.live ≡ true
  bounded : length st.0.queue ≤ subscriber_buffer
  ordered : IsPart (st.1 ++ st.0.queue) past
  counted : length st.1 + length st.0.queue + st.0.dropped ≡ length past

offer_room :
    (item : StreamItem) (s : Subscriber)
    → s.live ≡ true
    → ltb (length s.queue) subscriber_buffer ≡ true
    → offer item s ≡ record s { queue = s.queue ++ (item ∷ []) }
unfolding offer
offer_room item s live room = ground arith

offer_full :
    (item : StreamItem) (s : Subscriber)
    → s.live ≡ true
    → ltb (length s.queue) subscriber_buffer ≡ false
    → offer item s ≡ record s { dropped = s.dropped + 1 }
unfolding offer
offer_full item s live full = ground arith

offer-IsFair :
    (past : List StreamItem) (item : StreamItem) (s : Subscriber) (out : List StreamItem)
    → IsFair past (s, out)
    → IsFair (past ++ (item ∷ [])) (offer item s, out)
offer-IsFair past item s out f = elim (Bool-cases (ltb (length s.queue) subscriber_buffer)) [
  | inl room ↦ rw (offer_room item s f.live room) (record {
    live = f.live;
    bounded = omega (arith, ltb→lt _ _ room, length-append s.queue (item ∷ []));
    ordered = rw (← append_assoc out s.queue (item ∷ [])) (keep_last item f.ordered);
    counted =
        omega (arith, length-append s.queue (item ∷ []), length-append past (item ∷ []), f.counted);
  })
  | inr full ↦ rw (offer_full item s f.live full) (record {
    live = f.live;
    bounded = f.bounded;
    ordered = skip_last item f.ordered;
    counted = omega (arith, length-append past (item ∷ []), f.counted);
  })
]

take_next :
    (s : Subscriber) (item : StreamItem) (rest : List StreamItem)
    → s.queue ≡ item ∷ rest
    → take_one s ≡ (record s { queue = rest }, some item)
unfolding take_one
take_next s item rest e = ground arith

take_nothing : (s : Subscriber) → s.queue ≡ [] → take_one s ≡ (s, none)
unfolding take_one
take_nothing s e = ground arith

take-IsFair :
    (past : List StreamItem) (s : Subscriber) (out queue : List StreamItem)
    → s.queue ≡ queue
    → IsFair past (s, out)
    → let (s', item) = take_one s in IsFair past (s', got item out)
take-IsFair past s out [] e f = rw (take_nothing s e) f
take-IsFair past s out (item ∷ rest) e f = rw (take_next s item rest e) (record {
  live = f.live;
  bounded = omega (arith, f.bounded, ap length e);
  ordered =
      rw (append_assoc out (item ∷ []) rest) (subst (λ q. IsPart (out ++ q) past) e f.ordered);
  counted = omega (arith, f.counted, length-append out (item ∷ []), ap length e);
})

live_through-IsFair :
    (hs : List Happening) (past : List StreamItem) (s : Subscriber) (out : List StreamItem)
    → IsFair past (s, out)
    → IsFair (past ++ offered hs) (live_through hs (s, out))
unfolding live_through
live_through-IsFair [] past s out f = rw append-nil f
live_through-IsFair (published item ∷ hs) past s out f =
    rw (← append_assoc past (item ∷ []) (offered hs)) (
      live_through-IsFair hs (past ++ (item ∷ [])) (offer item s) out
        (offer-IsFair past item s out f))
live_through-IsFair (taken ∷ hs) past s out f =
    live_through-IsFair hs past (take_one s).0 _ (take-IsFair past s out s.queue refl f)

abbrev pub new_subscriber : Subscriber
new_subscriber = record { queue = []; dropped = 0; live = true; closed = false }

-- From its subscription on, until it is cancelled: what a reader took and what its channel holds
-- are the published items in their order with some left out, exactly as many as were counted as
-- dropped; and the channel never holds more than its buffer, so that the publisher never waits.
pub delivery :
    (hs : List Happening)
    → let (s, out) = live_through hs (new_subscriber, []) in
      IsPart (out ++ s.queue) (offered hs)
      × (length out + length s.queue + s.dropped ≡ length (offered hs))
      × (length s.queue ≤ subscriber_buffer)
delivery hs =
    let f =
      live_through-IsFair hs [] new_subscriber []
        (record { live = refl; bounded = omega arith; ordered = done; counted = omega arith }) in
    (f.ordered, f.counted, f.bounded)

find_sub-map_subs :
    (n : ℕ) (f : Subscriber → Subscriber) (subs : List (ℕ × Subscriber)) (s : Subscriber)
    → find_sub n subs ≡ some s
    → find_sub n (map_subs f subs) ≡ some (f s)
unfolding find_sub map_subs
find_sub-map_subs n f [] s at = absurd (ground arith)
find_sub-map_subs n f ((i, t) ∷ subs) s at = ground (arith, find_sub-map_subs n f subs s)

find_sub-on_sub :
    (n k : ℕ) (f : Subscriber → Subscriber) (subs : List (ℕ × Subscriber)) (s : Subscriber)
    → find_sub k subs ≡ some s
    → find_sub k (on_sub n f subs) ≡ some (if k == n then f s else s)
unfolding find_sub on_sub
find_sub-on_sub n k f [] s at = absurd (ground arith)
find_sub-on_sub n k f ((i, t) ∷ subs) s at = ground (arith, find_sub-on_sub n k f subs s)

offer-cancel_one : (item : StreamItem) (s : Subscriber) → offer item (cancel_one s) ≡ cancel_one s
unfolding offer cancel_one
offer-cancel_one item s = ground arith

cancel_one_idem : (s : Subscriber) → cancel_one (cancel_one s) ≡ cancel_one s
unfolding cancel_one
cancel_one_idem s = ground arith

on_sub-cancel_one :
    (n : ℕ) (subs : List (ℕ × Subscriber))
    → on_sub n cancel_one (on_sub n cancel_one subs) ≡ on_sub n cancel_one subs
unfolding on_sub
on_sub-cancel_one n [] = refl
on_sub-cancel_one n ((i, s) ∷ subs) = ground (arith, cancel_one_idem s, on_sub-cancel_one n subs)

-- `publish` offers the item to every subscriber of the bus on its own, and a cancel reaches the one
-- that it is for: that one is closed, once, and whatever is published later changes it no more.
pub publish-cancel :
    (b : Bus) (item : StreamItem) (n k : ℕ) (s t : Subscriber)
    → find_sub n b.subs ≡ some s
    → find_sub k b.subs ≡ some t
    → (n == k) ≡ false
    → let b' = cancel n b in
      (find_sub k (publish item b).subs ≡ some (offer item t))
      × (find_sub k b'.subs ≡ some t)
      × (find_sub n (publish item b').subs ≡ some (cancel_one s))
      × (cancel n b' ≡ b')
unfolding publish cancel
publish-cancel b item n k s t at at' ne = (
  find_sub-map_subs k (offer item) b.subs t at',
  ground (arith, find_sub-on_sub n k cancel_one b.subs t at'),
  find_sub-map_subs n (offer item) (on_sub n cancel_one b.subs) (cancel_one s)
        (ground (arith, find_sub-on_sub n n cancel_one b.subs s at))
      ∙ ap some (offer-cancel_one item s),
  ap (λ subs. record b { subs = subs }) (on_sub-cancel_one n b.subs),
)
