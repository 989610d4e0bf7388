-- ===== src/Events/Latest.antt =====
-- The latest event.
use rif_relay_server.Base.{
  ◌≡◌, ◌⊎◌, inl, inr, refl, true, false, none, some, List, [], ◌∷◌, arith, In, All-at, sort,
  mem-sort, mem_of_sort, IsSorted, sort-IsSorted,
}
use rif_relay_server.Events.{TypedEvent, later_first, get_latest_event_data, is_second_event_later}

later_first_total : (a b : TypedEvent) → later_first a b ≡ false → later_first b a ≡ true
later_first_total a b h = ground arith

later_first_trans :
    (a b c : TypedEvent) → later_first a b ≡ true → later_first b c ≡ true → later_first a c ≡ true
later_first_trans a b c h k = ground arith

not_later : (a b : TypedEvent) → later_first a b ≡ true → is_second_event_later a b ≡ false
unfolding is_second_event_later
not_later a b h = ground arith

not_later_self : (a : TypedEvent) → is_second_event_later a a ≡ false
unfolding is_second_event_later
not_later_self a = ground arith

-- There is a latest event exactly where there are events; it is one of them, and none of them is
-- later than it.
pub get_latest_event_data_lem :
    (events : List TypedEvent)
    → ((events ≡ []) × (get_latest_event_data events ≡ none))
      ⊎ ((e : TypedEvent) × (get_latest_event_data events ≡ some e)
          × In e events
          × ((x : TypedEvent) → In x events → is_second_event_later e x ≡ false))
unfolding get_latest_event_data
get_latest_event_data_lem [] = inl (refl, refl)
get_latest_event_data_lem (x ∷ xs) =
    from (sort later_first (x ∷ xs))
      (sort-IsSorted later_first later_first_total later_first_trans (x ∷ xs))
      (mem-sort later_first (x ∷ xs)) (mem_of_sort later_first (x ∷ xs))
  where
    from :
        (sorted : List TypedEvent)
        → IsSorted later_first sorted
        → ((a : TypedEvent) → In a sorted → In a (x ∷ xs))
        → ((a : TypedEvent) → In a (x ∷ xs) → In a sorted)
        → ((x ∷ xs ≡ []) × (elim sorted [ [] ↦ none | e ∷ es ↦ some e ] ≡ none))
          ⊎ ((e : TypedEvent) × (elim sorted [ [] ↦ none | e ∷ es ↦ some e ] ≡ some e)
              × In e (x ∷ xs)
              × ((y : TypedEvent) → In y (x ∷ xs) → is_second_event_later e y ≡ false))
    from [] s to back = elim (back x (inl refl)) [ ]
    from (e ∷ es) s to back = inr (
      e,
      refl,
      to e (inl refl),
      λ y m. elim (back y m) [
        | inl same ↦ rw same (not_later_self e)
        | inr k ↦ not_later e y (All-at _ es s.0 y k)
      ],
    )
