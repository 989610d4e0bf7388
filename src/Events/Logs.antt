-- ===== src/Events/Logs.antt =====
-- Which events a batch of requests yields.
use rif_relay_server.Base.{
  mem-append, subst, ℕ, zero, suc, ◌+◌, ◌≡◌, ◌≤◌, ◌<◌, ◌⊎◌, inl, inr, refl, Option, none, some,
  List, [], ◌∷◌, ◌++◌, ◌↔◌, arith, In, Option-cases, sym, ◌∙◌,
}
use rif_relay_server.Events.{TypedEvent, Filter, LogNode, retry, perform_log_requests}

same_or_past : (a k : ℕ) → a ≤ k → (a ≡ k) ⊎ (a + 1 ≤ k)
same_or_past a k h = ground arith

-- The first success of the attempts from `first` to `last`.
pub record IsAnswered (ask : ℕ → Option (List TypedEvent)) (first last : ℕ) (logs : List TypedEvent)
    : Type 0 where
  pub attempt : ℕ
  pub started : first ≤ attempt
  pub within : attempt ≤ last
  pub answered : ask attempt ≡ some logs
  pub failed_before : (k : ℕ) → first ≤ k → k < attempt → ask k ≡ none

retry-IsAnswered :
    (ask : ℕ → Option (List TypedEvent)) (attempt left : ℕ) (logs : List TypedEvent)
    → retry ask attempt left ≡ some logs
    → IsAnswered ask attempt (attempt + left) logs
retry-IsAnswered ask attempt zero logs e = record {
  attempt = attempt;
  started = omega arith;
  within = omega arith;
  answered = e;
  failed_before = λ k h l. absurd (omega arith);
}
retry-IsAnswered ask attempt (suc left) logs e = elim (Option-cases (ask attempt)) [
  | inl failed ↦
      let later = retry-IsAnswered ask (attempt + 1) left logs (rw (failed, retry) at e) in
      record {
        attempt = later.attempt;
        started = omega (arith, later.started);
        within = omega (arith, later.within);
        answered = later.answered;
        failed_before = λ k h l. elim (same_or_past attempt k h) [
          | inl same ↦ rw (← same) failed
          | inr past ↦ later.failed_before k past l
        ];
      }
  | inr (given, answered) ↦
      let same : some given ≡ some logs = rw (answered, retry) at e in
      record {
        attempt = attempt;
        started = omega arith;
        within = omega arith;
        answered = answered ∙ same;
        failed_before = λ k h l. absurd (omega arith);
      }
]

IsAnswered-retry :
    (ask : ℕ → Option (List TypedEvent)) (attempt left : ℕ) (logs : List TypedEvent)
    → IsAnswered ask attempt (attempt + left) logs
    → retry ask attempt left ≡ some logs
IsAnswered-retry ask attempt zero logs h =
    let same : h.attempt ≡ attempt = omega (arith, h.started, h.within) in rw (← same) h.answered
IsAnswered-retry ask attempt (suc left) logs h = elim (Option-cases (ask attempt)) [
  | inl failed ↦
      rw (failed, retry)
        (IsAnswered-retry ask (attempt + 1) left logs (record {
          attempt = h.attempt;
          started = elim (same_or_past attempt h.attempt h.started) [
            | inl same ↦ let bad = sym failed ∙ (rw (← same) at h.answered) in cc
            | inr past ↦ past
          ];
          within = omega (arith, h.within);
          answered = h.answered;
          failed_before = λ k s l. h.failed_before k (omega arith) l;
        }))
  | inr (given, answered) ↦ elim (same_or_past attempt h.attempt h.started) [
    | inl same ↦ let again : ask attempt ≡ some logs = rw same h.answered in rw (again, retry) refl
    | inr past ↦ let bad = sym answered ∙ h.failed_before attempt (omega arith) (omega arith) in cc
  ]
]

-- What a filter adds to the batch.
mem-joined :
    (o : Option (List TypedEvent)) (rest : List TypedEvent) (e : TypedEvent)
    → In e (elim o [ none ↦ rest | some logs ↦ logs ++ rest ])
      ↔ (((logs : List TypedEvent) × (o ≡ some logs) × In e logs) ⊎ In e rest)
mem-joined none rest e =
    (λ m. inr m, λ m. elim m [ inl (logs, q, n) ↦ absurd (none_ne q) | inr k ↦ k ])
  where
    none_ne : {logs : List TypedEvent} → ◌≡◌ {A = Option (List TypedEvent)} none (some logs) → ⊥
    none_ne q = cc
mem-joined (some given) rest e =
    let (to, from) = mem-append given rest e in
    (
      λ m. elim (to m) [ inl n ↦ inl (given, refl, n) | inr k ↦ inr k ],
      λ m. elim m [
        | inl (logs, q, n) ↦ from (inl (subst (λ l. In e l) (sym (given_eq q)) n))
        | inr k ↦ from (inr k)
      ],
    )
  where
    given_eq :
        {logs : List TypedEvent}
        → ◌≡◌ {A = Option (List TypedEvent)} (some given) (some logs)
        → given ≡ logs
    given_eq q = cc

-- A batch of requests yields an event exactly if, for one of the filters, it is among the logs of
-- the first attempt that succeeded, in four attempts at most; a filter whose attempts all fail adds
-- nothing.
pub mem-perform_log_requests :
    (node : LogNode) (batch : ℕ) (filters : List Filter) (e : TypedEvent)
    → In e (perform_log_requests node batch filters) ↔ (
        (f : Filter) × (logs : List TypedEvent) × In f filters
        × IsAnswered (node.get_logs batch f) 1 4 logs
        × In e logs)
mem-perform_log_requests node batch [] e = (λ m. elim m [ ], λ (f, logs, m, h, n). elim m [ ])
mem-perform_log_requests node batch (f ∷ fs) e =
    let (to, from) = mem-perform_log_requests node batch fs e in
    let (split, join) =
      mem-joined (retry (node.get_logs batch f) 1 3) (perform_log_requests node batch fs) e in
    (
      λ m. elim (split m) [
        | inl (logs, q, n) ↦
            (f, logs, inl refl, retry-IsAnswered (node.get_logs batch f) 1 3 logs q, n)
        | inr l ↦ let (g, logs, k, h, n) = to l in (g, logs, inr k, h, n)
      ],
      λ (g, logs, k, h, n). join (elim k [
        | inl same ↦ inl (
          logs,
          IsAnswered-retry (node.get_logs batch f) 1 3 logs
              (subst (λ x. IsAnswered (node.get_logs batch x) 1 4 logs) same h),
          n,
        )
        | inr k ↦ inr (from (g, logs, k, h, n))
      ]),
    )
