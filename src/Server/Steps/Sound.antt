-- ===== src/Server/Steps/Sound.antt =====
-- What a row says of its job (internal/repository/job_repository.go): the attempts, the times and the
-- error that go with each status.
use job_flow_web_application.Prelude.{
  ℕ, ◌+◌, ◌-◌, ◌≤◌, true, false, Option, none, some, ◌≡◌, ◌≢◌, ◌⊎◌, inl, inr, refl, sym, ◌∙◌, arith,
}
use job_flow_web_application.Prelude.Int.{ℤ, pos, pos_part, ltb_ℤ}
use job_flow_web_application.Prelude.Text.{Text}
use job_flow_web_application.Server.{
  Status, scheduled, queued, running, completed, failed, cancelled, retrying, dead_letter, Row,
  is_waiting, is_cancellable, is_dead,
}
use job_flow_web_application.Server.Rows.{row_of}
use job_flow_web_application.Server.Life.{
  Outer, promoted, claimed, withdrawn, requeued, Inner, succeeded, postponed, died, Evolves, same,
  born, moved, IsNew, Move,
}
use job_flow_web_application.Server.Queue.{SortedSets, Redis}
use job_flow_web_application.Server.Steps.{
  World, start, Step, creates, cancels, retries, promotes, pops, claims, ends, stops, forgets,
  Reach, here, next,
}
use job_flow_web_application.Server.Steps.Refinement.{Reach-EvolveAll}

-- A job whose retry was asked for n times may be tried so often: at least once, up to its
-- `max_attempts`, and once more for each retry.
abbrev pub allowed : Row → ℕ → ℕ
allowed row n = 1 + (pos_part row.max_attempts - 1) + n

abbrev pub IsLawfulAs : Status → Row → ℕ → Type 0
IsLawfulAs scheduled row n =
    (row.attempts ≡ 0) × (row.completed_at ≡ none) × (row.error_message ≡ none)
IsLawfulAs queued row n =
    (row.attempts + 1 ≤ allowed row n) × (row.completed_at ≡ none) × (row.error_message ≡ none)
IsLawfulAs running row n =
    (1 ≤ row.attempts)
    × (row.attempts ≤ allowed row n)
    × (row.completed_at ≡ none)
    × (row.started_at ≢ none)
IsLawfulAs completed row n =
    (1 ≤ row.attempts)
    × (row.attempts ≤ allowed row n)
    × (row.completed_at ≢ none)
    × (row.started_at ≢ none)
    × (row.error_message ≡ none)
IsLawfulAs failed row n = ⊥
IsLawfulAs cancelled row n = (row.attempts ≤ allowed row n) × (row.completed_at ≡ none)
IsLawfulAs retrying row n =
    (1 ≤ row.attempts)
    × (row.attempts + 1 ≤ pos_part row.max_attempts)
    × (row.completed_at ≡ none)
    × (row.started_at ≢ none)
    × (row.error_message ≢ none)
IsLawfulAs dead_letter row n =
    (1 ≤ row.attempts)
    × (pos_part row.max_attempts ≤ row.attempts)
    × (row.attempts ≤ allowed row n)
    × (row.completed_at ≡ none)
    × (row.started_at ≢ none)
    × (row.error_message ≢ none)

abbrev pub IsLawful : Row → ℕ → Type 0
IsLawful row n = IsLawfulAs row.status row n

more_parts : (a : ℕ) (m : ℤ) → ltb_ℤ (pos a) m ≡ true → a + 1 ≤ pos_part m
more_parts a m h = ground arith

none_left_parts : (a : ℕ) (m : ℤ) → ltb_ℤ (pos a) m ≡ false → pos_part m ≤ a
none_left_parts a m h = ground arith

IsLawfulAs-monotone :
    (s : Status) (row : Row) (n n' : ℕ) → n ≤ n' → IsLawfulAs s row n → IsLawfulAs s row n'
IsLawfulAs-monotone scheduled row n n' le h = h
IsLawfulAs-monotone queued row n n' le (a, b, c) = (omega arith, b, c)
IsLawfulAs-monotone failed row n n' le h = h
IsLawfulAs-monotone running row n n' le (a, b, c, d) = (a, omega arith, c, d)
IsLawfulAs-monotone completed row n n' le (a, b, c, d, e) = (a, omega arith, c, d, e)
IsLawfulAs-monotone cancelled row n n' le (a, b) = (omega arith, b)
IsLawfulAs-monotone retrying row n n' le h = h
IsLawfulAs-monotone dead_letter row n n' le (a, b, c, d, e, f) = (a, b, omega arith, d, e, f)

-- The statuses that the conditions of the statements allow.
pub is_waiting-cases : (s : Status) → is_waiting s ≡ true → (s ≡ queued) ⊎ (s ≡ retrying)
is_waiting-cases queued h = inl refl
is_waiting-cases retrying h = inr refl
is_waiting-cases scheduled h = cc
is_waiting-cases running h = cc
is_waiting-cases completed h = cc
is_waiting-cases failed h = cc
is_waiting-cases cancelled h = cc
is_waiting-cases dead_letter h = cc

pub is_cancellable-cases :
    (s : Status) → is_cancellable s ≡ true → (s ≡ scheduled) ⊎ ((s ≡ queued) ⊎ (s ≡ retrying))
is_cancellable-cases scheduled h = inl refl
is_cancellable-cases queued h = inr (inl refl)
is_cancellable-cases retrying h = inr (inr refl)
is_cancellable-cases running h = cc
is_cancellable-cases completed h = cc
is_cancellable-cases failed h = cc
is_cancellable-cases cancelled h = cc
is_cancellable-cases dead_letter h = cc

pub is_dead-cases : (s : Status) → is_dead s ≡ true → (s ≡ failed) ⊎ (s ≡ dead_letter)
is_dead-cases failed h = inl refl
is_dead-cases dead_letter h = inr refl
is_dead-cases scheduled h = cc
is_dead-cases queued h = cc
is_dead-cases running h = cc
is_dead-cases completed h = cc
is_dead-cases cancelled h = cc
is_dead-cases retrying h = cc

Outer-IsLawful : (r r' : Row) (n n' : ℕ) → n ≤ n' → IsLawful r n → Outer r r' n n' → IsLawful r' n'
Outer-IsLawful r r' n n' le h (promoted now was e) =
    let (none_yet, open_end, clean) = rw was at h in rw e (omega arith, open_end, clean)
Outer-IsLawful r r' n n' le h (claimed now was e) = rw e (elim (is_waiting-cases r.status was) [
  | inl is ↦
      let (few, open_end, clean) = rw is at h in (omega arith, omega arith, open_end, λ bad. cc)
  | inr is ↦
      let (once, few, open_end, begun, message) = rw is at h in
      (omega arith, omega arith, open_end, λ bad. cc)
])
Outer-IsLawful r r' n n' le h (withdrawn now was e) =
    rw e (elim (is_cancellable-cases r.status was) [
      | inl is ↦ let (none_yet, open_end, clean) = rw is at h in (omega arith, open_end)
      | inr (inl is) ↦ let (few, open_end, clean) = rw is at h in (omega arith, open_end)
      | inr (inr is) ↦
          let (once, few, open_end, begun, message) = rw is at h in (omega arith, open_end)
    ])
Outer-IsLawful r r' n n' le h (requeued now was more e) = rw e (elim (is_dead-cases r.status was) [
  | inl is ↦ absurd (rw is at h)
  | inr is ↦
      let (once, all, few, open_end, begun, message) = rw is at h in (omega arith, open_end, refl)
])

Inner-IsLawful : (r r' : Row) (n n' : ℕ) → n ≤ n' → IsLawful r n → Inner r r' n n' → IsLawful r' n'
Inner-IsLawful r r' n n' le h (succeeded now is e) =
    let (once, few, open_end, begun) = rw is at h in
    rw e (once, omega arith, (λ bad. cc), begun, refl)
Inner-IsLawful r r' n n' le h (postponed message now is more e) =
    let (once, few, open_end, begun) = rw is at h in
    rw e (once, more_parts r.attempts r.max_attempts more, open_end, begun, λ bad. cc)
Inner-IsLawful r r' n n' le h (died message now is none_left e) =
    let (once, few, open_end, begun) = rw is at h in
    rw e (
      once,
      none_left_parts r.attempts r.max_attempts none_left,
      omega arith,
      open_end,
      begun,
      λ bad. cc,
    )

IsNew-IsLawful : (r : Row) (n : ℕ) → IsNew r → IsLawful r n
IsNew-IsLawful r n (none_yet, clean, unbegun, open_end, inl is) =
    rw is (omega arith, open_end, clean)
IsNew-IsLawful r n (none_yet, clean, unbegun, open_end, inr is) = rw is (none_yet, open_end, clean)

Evolves-IsLawful :
    {o o' : Option Row} (n n' : ℕ)
    → n ≤ n'
    → Evolves Move o n o' n'
    → ((r : Row) → o ≡ some r → IsLawful r n)
    → (r : Row) → o' ≡ some r
    → IsLawful r n'
Evolves-IsLawful n n' le (same e) h r there =
    IsLawfulAs-monotone r.status r n n' le (h r (sym e ∙ there))
Evolves-IsLawful n n' le (born r' absent found new) h r there =
    let this : r' ≡ r = cc in let sound = IsNew-IsLawful r' n' new in rw this at sound
Evolves-IsLawful n n' le (moved r r' old found (inl m)) h r'' there =
    let this : r' ≡ r'' = cc in
    let sound = Outer-IsLawful r r' n n' le (h r old) m in rw this at sound
Evolves-IsLawful n n' le (moved r r' old found (inr m)) h r'' there =
    let this : r' ≡ r'' = cc in
    let sound = Inner-IsLawful r r' n n' le (h r old) m in rw this at sound

module _ {Z : Type 0} (sets : SortedSets Z) (round : ℤ → ℤ) (convert : ℕ → ℤ) where
  retried_grows :
      (w w' : World Z) → Step sets round convert w w' → (id : Text) → w.retried id ≤ w'.retried id
  retried_grows w _ (creates db redis_error i now input fresh) id = omega arith
  retried_grows w _ (cancels db i user now) id = omega arith
  retried_grows w _ (retries db redis_error i user now) id = ground arith
  retried_grows w _ (promotes db redis_error faults now) id = omega arith
  retried_grows w _ (pops names name i redis e) id = omega arith
  retried_grows w _ (claims db i now more) id = omega arith
  retried_grows w _ (ends db redis_error i now outcome more) id = omega arith
  retried_grows w _ (stops i more) id = omega arith
  retried_grows w _ (forgets i more) id = omega arith

  -- Whatever happens, each row is lawful, with the number of times that the retry of its job was asked
  -- for: a job that waits, runs, is retried, completed or dead has the attempts, the times and the error
  -- that its status says; no job is tried more often than once or its `max_attempts`, and once more
  -- for each retry that was asked for; and no job is ever "failed".
  pub Reach-IsLawful :
      (redis : Redis Z) (w : World Z)
      → Reach sets round convert (start redis) w
      → (id : Text) (row : Row) → row_of id w.store.rows ≡ some row
      → IsLawful row (w.retried id)
  unfolding row_of
  Reach-IsLawful redis _ here id row found = cc
  Reach-IsLawful redis w (next {u} steps step) id row found =
      Evolves-IsLawful (u.retried id) (w.retried id) (retried_grows u w step id)
        (Reach-EvolveAll sets round convert redis u w steps step id)
        (Reach-IsLawful redis u steps id) row found
