-- ===== src/Registration/Workers.antt =====
-- The last event that added a worker.
use rif_relay_server.Base.{
  ◌≡◌, ◌⊎◌, inl, inr, refl, sym, ◌∙◌, true, false, Option, none, some, List, [], ◌∷◌, arith, In,
  Bool-cases,
}
use rif_relay_server.Events.{TypedEvent, is_second_event_later}
use rif_relay_server.Registration.{newer_worker_added, is_worker_added, scan_workers}

not_later_trans :
    (a b c : TypedEvent)
    → is_second_event_later a b ≡ false
    → is_second_event_later b c ≡ false
    → is_second_event_later a c ≡ false
unfolding is_second_event_later
not_later_trans a b c h k = ground arith

not_later_of_later :
    (a b : TypedEvent) → is_second_event_later a b ≡ true → is_second_event_later b a ≡ false
unfolding is_second_event_later
not_later_of_later a b h = ground arith

not_later_self : (a : TypedEvent) → is_second_event_later a a ≡ false
unfolding is_second_event_later
not_later_self a = ground arith

-- The event is one of those known, and none of them is later.
pub record IsLatest (last : Option TypedEvent) (es : List TypedEvent) (e : TypedEvent)
    : Type 0 where
  pub known : (last ≡ some e) ⊎ (In e es × (is_worker_added e.event ≡ true))
  pub not_before_last : (x : TypedEvent) → last ≡ some x → is_second_event_later e x ≡ false
  pub not_before_any :
      (x : TypedEvent)
      → In x es
      → is_worker_added x.event ≡ true
      → is_second_event_later e x ≡ false

some_injective : {a b : TypedEvent} → ◌≡◌ {A = Option TypedEvent} (some a) (some b) → a ≡ b
some_injective h = cc

-- The newer of the known event and the next.
newer_lem :
    (last : Option TypedEvent) (x : TypedEvent)
    → (y : TypedEvent) × (newer_worker_added last x ≡ some y)
      × ((y ≡ x) ⊎ (last ≡ some y))
      × (is_second_event_later y x ≡ false)
      × ((z : TypedEvent) → last ≡ some z → is_second_event_later y z ≡ false)
newer_lem none x = (x, refl, inl refl, not_later_self x, λ z h. absurd (bad h))
  where
    bad : {z : TypedEvent} → ◌≡◌ {A = Option TypedEvent} none (some z) → ⊥
    bad h = cc
newer_lem (some old) x = elim (Bool-cases (is_second_event_later old x)) [
  | inl e ↦ (
    x,
    rw e refl,
    inl refl,
    not_later_self x,
    λ z h. let same : old ≡ z = some_injective h in rw (← same) (not_later_of_later old x e),
  )
  | inr e ↦ (
    old,
    rw e refl,
    inr refl,
    e,
    λ z h. let same : old ≡ z = some_injective h in rw (← same) (not_later_self old),
  )
]

IsLatest-step :
    (last : Option TypedEvent) (x y : TypedEvent) (es : List TypedEvent) (e : TypedEvent)
    → is_worker_added x.event ≡ true
    → (y ≡ x) ⊎ (last ≡ some y)
    → is_second_event_later y x ≡ false
    → ((z : TypedEvent) → last ≡ some z → is_second_event_later y z ≡ false)
    → IsLatest (some y) es e
    → IsLatest last (x ∷ es) e
IsLatest-step last x y es e added which over_x over_last h =
    let over_y = h.not_before_last y refl in
    record {
      known = elim h.known [
        | inl same ↦
            let q : y ≡ e = some_injective same in
            elim which [
              | inl of_x ↦ inr (inl (sym q ∙ of_x), rw (sym q ∙ of_x) added)
              | inr of_last ↦ inl (rw q at of_last)
            ]
        | inr (m, w) ↦ inr (inr m, w)
      ];
      not_before_last = λ z q. not_later_trans e y z over_y (over_last z q);
      not_before_any = λ z m w. elim m [
        | inl same ↦ rw same (not_later_trans e y x over_y over_x)
        | inr k ↦ h.not_before_any z k w
      ];
    }

-- An event with which the scan of the hub's events ends is the one known before, or an addition of
-- a worker in the list, and neither the one known before nor any addition in the list is later.
pub scan_workers-IsLatest :
    (last : Option TypedEvent) (es : List TypedEvent) (e : TypedEvent)
    → scan_workers last es ≡ some e
    → IsLatest last es e
unfolding scan_workers
scan_workers-IsLatest last [] e h = record {
  known = inl h;
  not_before_last =
      λ x q. let same : e ≡ x = some_injective (sym h ∙ q) in rw (← same) (not_later_self e);
  not_before_any = λ x m w. elim m [ ];
}
scan_workers-IsLatest last (x ∷ es) e h = elim (Bool-cases (is_worker_added x.event)) [
  | inl added ↦
      let (y, newer, which, over_x, over_last) = newer_lem last x in
      IsLatest-step last x y es e added which over_x over_last
        (scan_workers-IsLatest (some y) es e (rw (added, newer) at h))
  | inr other ↦
      let rest = scan_workers-IsLatest last es e (rw other at h) in
      record {
        known = elim rest.known [ inl q ↦ inl q | inr (m, w) ↦ inr (inr m, w) ];
        not_before_last = rest.not_before_last;
        not_before_any = λ z m w. elim m [
          | inl same ↦ let bad = sym other ∙ (rw same at w) in cc
          | inr k ↦ rest.not_before_any z k w
        ];
      }
]
