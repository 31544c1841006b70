-- ===== src/Collector/Gaps/Refinement.antt =====
-- A gap that the journal opens and closes, as the quality gate reads it,
-- src/miry/collector/gaps.py and src/miry/pipeline/quality.py.
use miry_data_collector.Base.{
  ℕ, suc, ◌+◌, ◌-◌, ◌*◌, ◌≤◌, ◌<◌, ◌≡◌, max, min, refl, ap, ◌∙◌, true, false, some, List, [], ◌∷◌,
  ◌++◌, if◌then◌else◌, arith,
}
use miry_data_collector.Base.Text.{Text, text_eq}
use miry_data_collector.Base.Dict.{lookup, lookup-insert_self}
use miry_data_collector.Base.Result.{ok}
use miry_data_collector.Contracts.Gap.{GapEvent, is_opened, validate_affected_from}
use miry_data_collector.Contracts.Chunks.{day_length_ns, date_of}
use miry_data_collector.Collector.Gaps.{
  Printing, GapJournal, save_state, open_gap, close_gap, event_date, opened_date, effective_of,
}
use miry_data_collector.Collector.Gaps.Rolling.{pieces, IsFree, publish-ok, close_gap-Writes}
use miry_data_collector.Collector.Gaps.Story.{of_day, story, pieces-story, IsPair, piece-intervals}
use miry_data_collector.Collector.Gaps.Split.{story-Pieces}
use miry_data_collector.Pipeline.Quality.Explicit.{
  change_of, end_of, or_observed, continues_text, explicit_invalid_intervals,
}

module _ (symbol : Text) where
  -- The events that the journal writes of one gap, from its opening to its closing: of those of a day
  -- between the two, the gate reads one interval, which is the time of the gap within the day. So no
  -- time of the gap is lost at a midnight and none is added. Conditions: the two events concern the
  -- symbol, the gap is not empty, its opening has the same date in both of the source's readings, and
  -- it does not end at a midnight or with the text of a gap that continues.
  pub explicit_invalid_intervals-of_gap :
      (opened closing : GapEvent) (d start end : ℕ)
      → IsPair symbol opened closing
      → (change_of opened).effective_ns ≡ start
      → event_date opened ≡ date_of start
      → opened_date opened ≡ date_of start
      → closing.observed_at_realtime_ns ≡ end
      → text_eq closing.detail continues_text ≡ false
      → start < end
      → date_of end * day_length_ns < end
      → date_of start ≤ d
      → d ≤ date_of end
      → explicit_invalid_intervals symbol (d * day_length_ns) (d * day_length_ns + day_length_ns) (
          some (
            of_day d (
              opened
              ∷ (pieces (date_of end - opened_date opened) (suc (opened_date opened)) opened
                  ++ (closing ∷ [])))))
        ≡ (max start (d * day_length_ns), min end (d * day_length_ns + day_length_ns)) ∷ []
  explicit_invalid_intervals-of_gap opened closing d start end pair se de od ce text l z a b =
      let (o, c, e, p) =
        story-Pieces symbol (date_of end - date_of start) (date_of start) d start end opened closing
          pair de closing_date se refl ee ended (omega (arith, a, b)) l (omega (arith, z, a, b)) a
          (omega (arith, a, b)) in
      ap
        (λ es.
          explicit_invalid_intervals symbol (d * day_length_ns) (d * day_length_ns + day_length_ns)
            (some (of_day d es)))
        whole
      ∙ ap
          (λ es.
            explicit_invalid_intervals symbol (d * day_length_ns)
              (d * day_length_ns + day_length_ns) (some es))
          e
      ∙ piece-intervals symbol d (max start (d * day_length_ns))
          (min end (d * day_length_ns + day_length_ns)) o c p (omega arith) (omega arith)
          (ground (arith, l, z, a, b))
    where
      whole :
          opened
            ∷ (pieces (date_of end - opened_date opened) (suc (opened_date opened)) opened
                ++ (closing ∷ []))
          ≡ story (date_of end - date_of start) (date_of start) opened closing
      whole =
          ap (λ k. opened ∷ (pieces (date_of end - k) (suc k) opened ++ (closing ∷ []))) od
          ∙ pieces-story (date_of end - date_of start) (date_of start) opened closing

      ee : (change_of closing).effective_ns ≡ end
      ee =
          ap
            (λ s.
              if is_opened s
              then or_observed closing.affected_from_realtime_ns closing.observed_at_realtime_ns
              else closing.observed_at_realtime_ns)
            pair.closes
          ∙ ce

      ended : end_of (change_of closing) ≡ end
      ended = ground (arith, ee, text)

      closing_date : event_date closing ≡ date_of end - date_of start + date_of start
      closing_date =
          ap
            (λ s.
              date_of
                (effective_of s closing.affected_from_realtime_ns closing.observed_at_realtime_ns))
            pair.closes
          ∙ ap date_of ce
          ∙ omega (arith, a, b)

module _ (P : Printing) where
  open_gap-ok :
      (now day : ℕ) (opened : GapEvent) (j : GapJournal)
      → IsFree day j
      → day ≤ event_date opened
      → validate_affected_from opened ≡ true
      → (j1 : GapJournal) × (open_gap P now opened j ≡ ok j1)
        × (j1.gap_files ≡ j.gap_files ++ (opened ∷ []))
        × IsFree day j1
        × (lookup opened.gap_id j1.open_states ≡ some opened)
  unfolding open_gap
  open_gap-ok now day opened j h l v =
      let (a, e, files, free) = publish-ok P now day opened j h l in
      (
        save_state opened a,
        rw (v, e) refl,
        files,
        record { unsealed = free.unsealed; sound = free.sound },
        lookup-insert_self opened.gap_id opened a.open_states,
      )

  -- The journal keeps what a gap is: when a journal without gap files opens a gap and closes it, on
  -- whatever later day, both calls return, and of the gap files of any day from the one to the other
  -- the quality gate reads exactly the time of the gap within the day. Conditions: no day since the
  -- gap's beginning is sealed and no write fails; the two events concern the symbol; the opening is an
  -- event that the model accepts, with the same date in both of the source's readings; and the gap is
  -- not empty and does not end at a midnight or with the text of a gap that continues.
  pub close_gap-refines :
      (now later : ℕ) (symbol : Text) (opened closing : GapEvent) (j : GapJournal) (d start end : ℕ)
      → j.gap_files ≡ []
      → IsFree (date_of start) j
      → validate_affected_from opened ≡ true
      → IsPair symbol opened closing
      → (change_of opened).effective_ns ≡ start
      → event_date opened ≡ date_of start
      → opened_date opened ≡ date_of start
      → closing.observed_at_realtime_ns ≡ end
      → text_eq closing.detail continues_text ≡ false
      → start < end
      → date_of end * day_length_ns < end
      → date_of start ≤ d
      → d ≤ date_of end
      → (j1 : GapJournal) × (j2 : GapJournal) × (open_gap P now opened j ≡ ok j1)
        × (close_gap P later closing j1 ≡ ok j2)
        × (explicit_invalid_intervals symbol
              (d * day_length_ns)
              (d * day_length_ns + day_length_ns)
              (some (of_day d j2.gap_files))
            ≡ (max start (d * day_length_ns), min end (d * day_length_ns + day_length_ns)) ∷ [])
  close_gap-refines now later symbol opened closing j d start end none_before free v pair se de od
        ce text l z a b =
      let (j1, e1, files, free1, known) =
        open_gap-ok now (date_of start) opened j free (omega (arith, de)) v in
      let (j2, e2, files2, _) =
        close_gap-Writes P later opened closing j1
          (ap (λ g. lookup g j1.open_states) pair.same_gap ∙ known) pair.closes
          (omega (arith, od, ce, a, b))
          (record {
            unsealed = λ x k. free1.unsealed x (omega (arith, od, k));
            sound = free1.sound;
          }) in
      (
        j1,
        j2,
        e1,
        e2,
        ap
              (λ es.
                explicit_invalid_intervals symbol (d * day_length_ns)
                  (d * day_length_ns + day_length_ns) (some (of_day d es)))
              (files2
                ∙ ap (λ fs. fs ++ (written closing.observed_at_realtime_ns))
                    (files ∙ ap (λ fs. fs ++ (opened ∷ [])) none_before)
                ∙ ap (λ t. opened ∷ written t) ce)
            ∙ explicit_invalid_intervals-of_gap symbol opened closing d start end pair se de od ce
                text l z a b,
      )
    where
      written : ℕ → List GapEvent
      written t =
          pieces (date_of t - opened_date opened) (suc (opened_date opened)) opened
          ++ (closing ∷ [])
