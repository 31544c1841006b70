-- ===== src/Collector/Gaps/Rolling.antt =====
-- What `_roll_state_to` publishes, src/miry/collector/gaps.py.
use miry_data_collector.Base.{
  ℕ, zero, suc, ◌+◌, ◌-◌, ◌*◌, ◌≤◌, ◌≡◌, refl, sym, ap, ◌∙◌, inl, inr, true, false, Bool-cases,
  some, List, [], ◌∷◌, ◌++◌, append_assoc, append-nil, if◌then◌else◌, ◌==◌, ==_iff, arith,
}
use miry_data_collector.Base.Result.{Result, ok}
use miry_data_collector.Base.Dict.{lookup}
use miry_data_collector.Contracts.Gap.{GapEvent, GapState}
use miry_data_collector.Contracts.Chunks.{ChunkManifest, day_length_ns, date_of, as_ref}
use miry_data_collector.Collector.DayIndex.{
  DayIndex, is_sealed, record_generated, enter, on_day, journal_with, ready_with,
}
use miry_data_collector.Collector.Gaps.{
  Printing, GapJournal, JournalFault, event_date, closing_at, continued_at, opened_date,
  manifest_of, publish, publish_end, roll_days, close_gap, save_state, remove_open_state,
  effective_of,
}

-- The events of `n` midnights from that of `day` on.
abbrev pub pieces : ℕ → ℕ → GapEvent → List GapEvent
pieces zero day opened = []
pieces (suc n) day opened =
    closing_at opened (day * day_length_ns)
    ∷ continued_at opened (day * day_length_ns)
    ∷ pieces n (suc day) (continued_at opened (day * day_length_ns))

-- No day from `day` on is sealed, and no write fails.
pub record IsFree (day : ℕ) (j : GapJournal) : Type 0 where
  pub unsealed : (d : ℕ) → day ≤ d → is_sealed d j.index ≡ false
  pub sound : j.writes ≡ []

-- The call returns, and it has written the events.
abbrev pub Writes : ℕ → List GapEvent → GapJournal → Result JournalFault GapJournal → Type 0
Writes day events j result =
    (j' : GapJournal) × (result ≡ ok j') × (j'.gap_files ≡ j.gap_files ++ events) × IsFree day j'

-- Dates of the events at a midnight.
pub closing-date :
    (opened : GapEvent) (day : ℕ) → event_date (closing_at opened (suc day * day_length_ns)) ≡ day
closing-date opened day = omega arith

pub continued-date :
    (opened : GapEvent) (day : ℕ) → event_date (continued_at opened (day * day_length_ns)) ≡ day
continued-date opened day = omega arith

module _ (P : Printing) (now : ℕ) where
  enter-ok :
      (date : ℕ) (m : ChunkManifest) (s : DayIndex)
      → m.utc_date ≡ date
      → (s' : DayIndex) × (enter date m s ≡ ok s') × ((d : ℕ) → is_sealed d s' ≡ is_sealed d s)
  enter-ok date m s e = (written, rw matches refl, same)
    where
      written : DayIndex
      written = on_day date (journal_with (as_ref m) (ready_with m (s.days date))) s

      matches : (m.utc_date == date) ≡ true
      matches = ground (arith, e)

      same : (d : ℕ) → is_sealed d written ≡ is_sealed d s
      same d = elim (Bool-cases (d == date)) [
        | inl f ↦ rw f (ap (λ x. is_sealed x s) (sym ((==_iff d date).0 f)))
        | inr f ↦ rw f refl
      ]

  pub publish-ok :
      (day : ℕ) (e : GapEvent) (j : GapJournal)
      → IsFree day j
      → day ≤ event_date e
      → Writes day (e ∷ []) j (publish P now e j)
  unfolding publish record_generated
  publish-ok day e j h l =
      let (s, entered, same) = enter-ok (event_date e) (manifest_of P now e j) j.index refl in
      (
        record j { index = s; gap_files = j.gap_files ++ (e ∷ []); writes = [] },
        rw (h.sound, h.unsealed (event_date e) l, entered) refl,
        refl,
        record { unsealed = λ d k. same d ∙ h.unsealed d k; sound = refl },
      )

  publish_end-free :
      (day : ℕ) (opened : GapEvent) (j : GapJournal)
      → is_sealed day j.index ≡ false
      → publish_end P now (suc day) opened j
        ≡ publish P now (closing_at opened (suc day * day_length_ns)) j
  publish_end-free day opened j h =
      ap (λ b. if b then ok j else publish P now (closing_at opened (suc day * day_length_ns)) j)
        (ap (λ d. is_sealed d j.index) previous ∙ h)
    where
      previous : suc day - 1 ≡ day
      previous = omega arith

  roll_days-Writes :
      (n day : ℕ) (opened : GapEvent) (j : GapJournal)
      → IsFree day j
      → Writes (n + day) (pieces n (suc day) opened) j (roll_days P now n (suc day) opened j)
  unfolding roll_days
  roll_days-Writes zero day opened j h = (
    j,
    refl,
    sym (append-nil j.gap_files),
    record { unsealed = λ d k. h.unsealed d (omega (arith, k)); sound = h.sound },
  )
  roll_days-Writes (suc n) day opened j h =
      let next = continued_at opened (suc day * day_length_ns) in
      let (a, ended, files, free) =
        publish-ok day (closing_at opened (suc day * day_length_ns)) j h
          (omega (arith, closing-date opened day)) in
      let (b, started, files', free') =
        publish-ok day next a free (omega (arith, continued-date opened (suc day))) in
      let (c, rolled, files'', free'') =
        roll_days-Writes n (suc day) next (save_state next b)
          (record { unsealed = λ d k. free'.unsealed d (omega (arith, k)); sound = free'.sound }) in
      (
        c,
        rw
            (
              roll_days,
              publish_end-free day opened j (h.unsealed day (omega arith)) ∙ ended,
              started,
            )
            rolled,
        files''
            ∙ ap (λ fs. fs ++ pieces n (suc (suc day)) next)
                (files' ∙ ap (λ fs. fs ++ (next ∷ [])) files)
            ∙ regroup j.gap_files (closing_at opened (suc day * day_length_ns)) next
                (pieces n (suc (suc day)) next),
        record { unsealed = λ d k. free''.unsealed d (omega (arith, k)); sound = free''.sound },
      )
    where
      regroup :
          (fs : List GapEvent) (x y : GapEvent) (zs : List GapEvent)
          → ((fs ++ (x ∷ [])) ++ (y ∷ [])) ++ zs ≡ fs ++ (x ∷ y ∷ zs)
      regroup fs x y zs =
          append_assoc (fs ++ (x ∷ [])) (y ∷ []) zs ∙ append_assoc fs (x ∷ []) (y ∷ zs)

  -- `close` returns when no day since the gap's opening is sealed and no write fails. It writes an end
  -- and a new start of the gap for each midnight since the opening, and then the closing event, and
  -- the state file is gone.
  pub close_gap-Writes :
      (opened event : GapEvent) (j : GapJournal)
      → lookup event.gap_id j.open_states ≡ some opened
      → event.state ≡ GapState.closed
      → opened_date opened ≤ date_of event.observed_at_realtime_ns
      → IsFree (opened_date opened) j
      → Writes
          (date_of event.observed_at_realtime_ns)
          (pieces
              (date_of event.observed_at_realtime_ns - opened_date opened)
              (suc (opened_date opened))
              opened
            ++ (event ∷ []))
          j
          (close_gap P now event j)
  unfolding close_gap
  close_gap-Writes opened event j known shut l h =
      let (a, rolled, files, free) =
        roll_days-Writes (date_of event.observed_at_realtime_ns - opened_date opened)
          (opened_date opened) opened j h in
      let (b, published, files', free') =
        publish-ok (date_of event.observed_at_realtime_ns) event a
          (record { unsealed = λ d k. free.unsealed d (omega (arith, k, l)); sound = free.sound })
          (dated event.state shut) in
      (
        remove_open_state event.gap_id b,
        rw (known, rolled, published) refl,
        files' ∙ ap (λ fs. fs ++ (event ∷ [])) files ∙ append_assoc j.gap_files _ (event ∷ []),
        record { unsealed = free'.unsealed; sound = free'.sound },
      )
    where
      dated :
          (s : GapState)
          → s ≡ GapState.closed
          → date_of event.observed_at_realtime_ns
            ≤ date_of (effective_of s event.affected_from_realtime_ns event.observed_at_realtime_ns)
      dated GapState.closed e = omega arith
      dated GapState.opened e = cc
