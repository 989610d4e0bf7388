-- ===== src/Registration/Delayed.antt =====
-- The delayed events: each is handed out once it is due, and kept until then.
use rif_relay_server.Base.{
  ℕ, ◌≡◌, ◌≤◌, ◌<◌, ◌↔◌, inl, inr, refl, List, [], ◌∷◌, map, In, filter, mem-filter, mem_of_filter,
  leb→le, le→leb, ltb→lt, lt→ltb,
}
use rif_relay_server.Outcome.{ok}
use rif_relay_server.Events.{TypedEvent}
use rif_relay_server.Registration.{
  DelayedEvent, Registration, is_due, is_later, event_of, extract_due_pending_events,
}

mem-map :
    {A B : Type 0} (f : A → B) (xs : List A) (b : B)
    → In b (map f xs) ↔ ((a : A) × In a xs × (b ≡ f a))
mem-map f [] b = (λ m. elim m [ ], λ (a, m, e). elim m [ ])
mem-map f (x ∷ xs) b =
    let (to, from) = mem-map f xs b in
    (
      λ m. elim m [ inl e ↦ (x, inl refl, e) | inr k ↦ let (a, l, e) = to k in (a, inr l, e) ],
      λ (a, m, e). elim m [ inl same ↦ inl (rw (← same) e) | inr k ↦ inr (from (a, k, e)) ],
    )

module _ {Store : Type 0} where
  -- `_extractDuePendingEvents` hands out the events whose block is not past the current one, keeps
  -- exactly the later ones, and changes nothing else.
  pub extract_due_pending_events_lem :
      (block : ℕ) (r : Registration Store)
      → (due : List TypedEvent) × (kept : List DelayedEvent) × (extract_due_pending_events block r
          ≡ (ok due, record r { delayed_events = kept }))
        × ((e : TypedEvent)
            → In e due ↔ (
                (d : DelayedEvent) × In d r.delayed_events
                × (d.block ≤ block)
                × (e ≡ d.event_data)))
        × ((d : DelayedEvent) → In d kept ↔ (In d r.delayed_events × (block < d.block)))
  unfolding extract_due_pending_events
  extract_due_pending_events_lem block r = (
    map event_of (filter (is_due block) r.delayed_events),
    filter (is_later block) r.delayed_events,
    refl,
    λ e.
        let (to, from) = mem-map event_of (filter (is_due block) r.delayed_events) e in
        (
          λ m.
              let (d, k, q) = to m in
              let (l, h) = mem-filter (is_due block) _ d k in (d, l, leb→le d.block block h, q),
          λ (d, m, h, q).
              from
                (d, mem_of_filter (is_due block) r.delayed_events d m (le→leb d.block block h), q),
        ),
    λ d. (
      λ m. let (l, h) = mem-filter (is_later block) _ d m in (l, ltb→lt block d.block h),
      λ (m, h). mem_of_filter (is_later block) r.delayed_events d m (lt→ltb block d.block h),
    ),
  )
