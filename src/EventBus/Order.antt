-- ===== src/EventBus/Order.antt =====
-- Who hears what, over the operations of src/infra/event_bus.c.
use kaufbot.Prelude.{
  ℕ, ◌≤◌, ◌<◌, ◌≡◌, refl, ap, sym, ◌∙◌, true, false, ◌&&◌, not, List, [], ◌∷◌, ◌++◌, length,
  length-append, get_or, set, All, leb, ◌==◌, arith, get_or-set, get_or-set_ne, length-set,
  set-get_or, set-set, All-set, All-get_or, All-append_one, if◌then◌else◌, Bool-cases, inl, inr,
}
use kaufbot.EventBus.{
  event_count, event_bus_max_subscribers, Subscriber, EventBus, subscribe, has_handler,
  remove_handler, unsubscribe, called, publish,
}

-- A subscriber that `bus_publish` calls.
pub record IsActive (s : Subscriber) : Type 0 where
  pub is_active : s.active ≡ true
  pub not_null : (s.handler == 0) ≡ false

-- A bus has a slot for each event, with no more subscribers than places, each of them active with
-- a handler.
pub record IsBus (bus : EventBus) : Type 0 where
  pub slots : length bus ≡ 5
  pub places : All (λ subs. length subs ≤ 8) bus
  pub active : All (λ subs. All IsActive subs) bus

has_handler-append :
    (handler : ℕ) (s : Subscriber) (subs : List Subscriber)
    → (s.handler == handler) ≡ true
    → has_handler handler (subs ++ s ∷ []) ≡ true
unfolding has_handler
has_handler-append handler s [] h = rw h refl
has_handler-append handler s (x ∷ xs) h = ground (arith, has_handler-append handler s xs h)

remove_handler-append :
    (handler : ℕ) (s : Subscriber) (subs : List Subscriber)
    → (s.handler == handler) ≡ true
    → has_handler handler subs ≡ false
    → remove_handler handler (subs ++ s ∷ []) ≡ subs
unfolding has_handler remove_handler
remove_handler-append handler s [] h none_ = rw h refl
remove_handler-append handler s (x ∷ xs) h none_ =
    let ih = remove_handler-append handler s xs h in
    elim (Bool-cases (x.handler == handler)) [
      | inl e ↦ absurd (ground (arith, e))
      | inr e ↦ rw e (ap (λ l. x ∷ l) (ih (ground (arith, e))))
    ]

subscribe-IsBus :
    (event handler userdata : ℕ) (bus : EventBus)
    → IsBus bus
    → IsBus (subscribe event handler userdata bus).1
unfolding subscribe
subscribe-IsBus event handler userdata bus v =
    let subs = get_or bus event [] in
    let s : Subscriber = record { handler = handler; userdata = userdata; active = true } in
    elim (Bool-cases (handler == 0)) [
      | inl null ↦ rw null v
      | inr some_ ↦ elim (Bool-cases (leb event_count event)) [
        | inl out ↦ rw (some_, out) v
        | inr in_range ↦ elim (Bool-cases (leb event_bus_max_subscribers (length subs))) [
          | inl full ↦ rw (some_, in_range, full) v
          | inr room ↦
              rw (some_, in_range, room)
                (record {
                  slots = length-set bus event (subs ++ s ∷ []) ∙ v.slots;
                  places =
                      All-set (λ l. length l ≤ 8) bus event (subs ++ s ∷ []) v.places
                        (ground (arith, length-append subs (s ∷ [])));
                  active =
                      All-set (λ l. All IsActive l) bus event (subs ++ s ∷ []) v.active
                        (All-append_one IsActive subs s
                          (All-get_or (λ l. All IsActive l) bus event [] v.active tt)
                          (record { is_active = refl; not_null = some_ }));
                })
        ]
      ]
    ]

length-remove_handler :
    (handler : ℕ) (subs : List Subscriber) → length (remove_handler handler subs) ≤ length subs
unfolding remove_handler
length-remove_handler handler [] = omega arith
length-remove_handler handler (s ∷ rest) = ground (arith, length-remove_handler handler rest)

remove_handler-IsActive :
    (handler : ℕ) (subs : List Subscriber)
    → All IsActive subs
    → All IsActive (remove_handler handler subs)
unfolding remove_handler
remove_handler-IsActive handler [] h = tt
remove_handler-IsActive handler (s ∷ rest) h =
    let ih = remove_handler-IsActive handler rest h.1 in
    elim (Bool-cases (s.handler == handler)) [ inl e ↦ rw e h.1 | inr e ↦ rw e (h.0, ih) ]

unsubscribe-IsBus :
    (event handler : ℕ) (bus : EventBus) → IsBus bus → IsBus (unsubscribe event handler bus).1
unfolding unsubscribe
unsubscribe-IsBus event handler bus v =
    let subs = get_or bus event [] in
    let left = remove_handler handler subs in
    elim (Bool-cases (handler == 0)) [
      | inl null ↦ rw null v
      | inr some_ ↦ elim (Bool-cases (leb event_count event)) [
        | inl out ↦ rw (some_, out) v
        | inr in_range ↦ elim (Bool-cases (has_handler handler subs)) [
          | inr absent ↦ rw (some_, in_range, absent) v
          | inl there ↦
              rw (some_, in_range, there)
                (record {
                  slots = length-set bus event left ∙ v.slots;
                  places =
                      All-set (λ l. length l ≤ 8) bus event left v.places
                        (omega (
                          arith,
                          length-remove_handler handler subs,
                          All-get_or (λ l. length l ≤ 8) bus event [] v.places (omega arith),
                        ));
                  active =
                      All-set (λ l. All IsActive l) bus event left v.active
                        (remove_handler-IsActive handler subs
                          (All-get_or (λ l. All IsActive l) bus event [] v.active tt));
                })
        ]
      ]
    ]

-- Both operations keep a bus well-formed, whatever their arguments: five slots, at most eight
-- subscribers in each, all of them active and with a handler that is not NULL.
pub calls-IsBus :
    (bus : EventBus)
    → IsBus bus
    → ((event handler userdata : ℕ) → IsBus (subscribe event handler userdata bus).1)
      × ((event handler : ℕ) → IsBus (unsubscribe event handler bus).1)
calls-IsBus bus v = (
  λ event handler userdata. subscribe-IsBus event handler userdata bus v,
  λ event handler. unsubscribe-IsBus event handler bus v,
)

called-IsActive : (subs : List Subscriber) → All IsActive subs → called subs ≡ subs
unfolding called
called-IsActive [] h = refl
called-IsActive (s ∷ rest) h =
    let heard : (s.active && not (s.handler == 0)) ≡ true =
      ap (λ b. b && not (s.handler == 0)) h.0.is_active ∙ ap not h.0.not_null in
    rw heard (ap (λ l. s ∷ l) (called-IsActive rest h.1))

called-IsBus :
    (event : ℕ) (bus : EventBus) → IsBus bus → called (get_or bus event []) ≡ get_or bus event []
called-IsBus event bus v =
    called-IsActive (get_or bus event [])
      (All-get_or (λ l. All IsActive l) bus event [] v.active tt)

in_range_lt : (event : ℕ) → leb event_count event ≡ false → event < 5
in_range_lt event h = ground arith

-- What a subscription that succeeds has checked, and the bus that it leaves.
subscribe_done :
    (event handler userdata : ℕ) (bus : EventBus)
    → (subscribe event handler userdata bus).0 ≡ true
    → ((handler == 0) ≡ false)
      × (leb event_count event ≡ false)
      × ((subscribe event handler userdata bus).1
          ≡ set bus event (
              get_or bus event []
              ++ record { handler = handler; userdata = userdata; active = true } ∷ []))
unfolding subscribe
subscribe_done event handler userdata bus done = elim (Bool-cases (handler == 0)) [
  | inl null ↦ absurd (ground (arith, null, done))
  | inr some_ ↦ elim (Bool-cases (leb event_count event)) [
    | inl out ↦ absurd (ground (arith, some_, out, done))
    | inr in_range ↦
        elim (Bool-cases (leb event_bus_max_subscribers (length (get_or bus event [])))) [
          | inl full ↦ absurd (ground (arith, some_, in_range, full, done))
          | inr room ↦ (some_, in_range, rw (some_, in_range, room) refl)
        ]
  ]
]

-- After a subscription that succeeds on a well-formed bus, a publication of its event calls those
-- that it called before and then the new subscriber, and one of another event calls the same ones.
pub publish-subscribe :
    (event handler userdata : ℕ) (bus : EventBus)
    → IsBus bus
    → (subscribe event handler userdata bus).0 ≡ true
    → (publish event (subscribe event handler userdata bus).1
        ≡ publish event bus
          ++ record { handler = handler; userdata = userdata; active = true } ∷ [])
      × ((other : ℕ)
          → (event == other) ≡ false
          → publish other (subscribe event handler userdata bus).1 ≡ publish other bus)
unfolding publish
publish-subscribe event handler userdata bus v done =
    let s : Subscriber = record { handler = handler; userdata = userdata; active = true } in
    let subs = get_or bus event [] in
    let (some_, in_range, bus') = subscribe_done event handler userdata bus done in
    let now =
      get_or-set bus event (subs ++ s ∷ []) []
        (omega (arith, v.slots, in_range_lt event in_range)) in
    let all_called = called-IsActive (subs ++ s ∷ []) (
      All-append_one IsActive subs s (All-get_or (λ l. All IsActive l) bus event [] v.active tt)
        (record { is_active = refl; not_null = some_ })) in
    (
      rw (bus', in_range, now, all_called, called-IsBus event bus v) refl,
      λ other ne.
          ap (publish other) bus'
          ∙ ap (λ l. if leb event_count other then [] else called l)
              (get_or-set_ne bus event other (subs ++ s ∷ []) [] ne),
    )

-- On a well-formed bus, where the handler did not listen to the event yet, unsubscribing it after a
-- subscription that succeeded gives the old bus back.
pub unsubscribe-subscribe :
    (event handler userdata : ℕ) (bus : EventBus)
    → IsBus bus
    → has_handler handler (publish event bus) ≡ false
    → (subscribe event handler userdata bus).0 ≡ true
    → unsubscribe event handler (subscribe event handler userdata bus).1 ≡ (true, bus)
unfolding publish unsubscribe
unsubscribe-subscribe event handler userdata bus v fresh done =
    let s : Subscriber = record { handler = handler; userdata = userdata; active = true } in
    let subs = get_or bus event [] in
    let (some_, in_range, bus') = subscribe_done event handler userdata bus done in
    let now =
      get_or-set bus event (subs ++ s ∷ []) []
        (omega (arith, v.slots, in_range_lt event in_range)) in
    let same : (handler == handler) ≡ true = ground arith in
    let absent : has_handler handler subs ≡ false =
      ap (λ b. has_handler handler (if b then [] else subs)) (sym in_range)
      ∙ (ap (λ l. has_handler handler (if leb event_count event then [] else l))
            (sym (called-IsBus event bus v))
          ∙ fresh) in
    rw
      (
        bus',
        some_,
        in_range,
        now,
        has_handler-append handler s subs same,
        remove_handler-append handler s subs same absent,
      )
      (ap (λ l. (true, l)) (set-set bus event (subs ++ s ∷ []) subs ∙ set-get_or bus event []))
