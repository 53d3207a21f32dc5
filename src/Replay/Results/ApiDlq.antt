-- ===== src/Replay/Results/ApiDlq.antt =====
-- A replay of the dead letters that the ingestion API writes: the reader of
-- pipelines/replay/source_adapters.py and the job of pipelines/replay/replay_job.py on the documents
-- of pipelines/ingestion/shared/dlq_producer.py.
use fraudstream.Prelude.{
  ℕ, zero, suc, ◌+◌, ◌≡◌, refl, String, Bool, List, [], ◌∷◌, Option, none, some, arith, take,
}
use text.Mathlib.TextEquality.{eq_iff}
use fraudstream.Value.{str}
use fraudstream.Json.{Fields, scalar, obj, find_field, same_json}
use fraudstream.Ingestion.Producer.Envelope.{Envelope, envelope}
use fraudstream.Replay.{
  Job, World, End, finished, stopped, broken, handle_event, replay_events, conclude, run_replay,
  start, new_job, running,
}
use fraudstream.Replay.Sources.{Event}
use fraudstream.Replay.Sources.Dlq.{
  Message, Poll, nothing, error, message, Config, Parser, Bounds, Verdict, keep, skip, raise, Run,
  judge, event_of, is_untimely, iter_events,
}
use fraudstream.Replay.Sources.Dlq.Reading.{answers, kept, AreBounds, iter_events-kept}
use fraudstream.Replay.Results.{ReplayResult, process_event}

abbrev pub IsText : Event → Type 0
IsText e = (s : String) × (e.payload ≡ scalar (str s))

abbrev pub AreTexts : List Event → Type 0
AreTexts [] = Unit {0}
AreTexts (e ∷ events) = IsText e × AreTexts events

-- An answer of the consumer whose message, if it has one, is a document of the ingestion API.
abbrev pub IsFromApi : Poll → Type 0
IsFromApi nothing = Unit {0}
IsFromApi error = Unit {0}
IsFromApi (message m) = (e : Envelope) × (m.value ≡ some (obj (envelope e)))

take-AreTexts : (n : ℕ) (events : List Event) → AreTexts events → AreTexts (take n events)
take-AreTexts zero events h = tt
take-AreTexts (suc n) [] h = tt
take-AreTexts (suc n) (e ∷ events) h = (h.0, take-AreTexts n events h.1)

module _ (parse_time : Parser) (config : Config) (b : Bounds) where
  -- A document of the ingestion API for the topic of the configuration is kept, whatever the range of
  -- times is and however long ago it failed, and its payload is the text of the transaction.
  pub judge-kept :
      (m : Message) (e : Envelope)
      → m.value ≡ some (obj (envelope e))
      → e.source_topic ≡ config.source_topic
      → (event : Event) × (judge parse_time config b m ≡ keep event)
        × (event.payload ≡ scalar (str e.original_payload))
        × (event.offset ≡ m.offset)
  unfolding judge envelope find_field same_json is_untimely event_of
  judge-kept m e h same = (
    event_of parse_time config m.offset (envelope e),
    ground (arith, h, same, eq_iff e.source_topic config.source_topic),
    refl,
    refl,
  )

  judge-IsText :
      (m : Message) (e : Envelope) (event : Event)
      → m.value ≡ some (obj (envelope e))
      → judge parse_time config b m ≡ keep event
      → IsText event
  unfolding judge envelope find_field same_json is_untimely event_of
  judge-IsText m e event h k = (e.original_payload, ground (arith, h, k))

  kept-AreTexts :
      (poll : ℕ → Poll)
      → ((i : ℕ) → IsFromApi (poll i))
      → (k n : ℕ) → AreTexts (kept parse_time config b (answers poll k n))
  kept-AreTexts poll h zero n = tt
  kept-AreTexts poll h (suc k) n = answer (poll n) (h n) (kept-AreTexts poll h k (suc n))
    where
      judged :
          (m : Message) (v : Verdict) (rest : List Poll)
          → IsFromApi (message m)
          → judge parse_time config b m ≡ v
          → AreTexts (kept parse_time config b rest)
          → AreTexts (kept parse_time config b (message m ∷ rest))
      judged m (keep event) rest f e ih = rw (e, AreTexts) (judge-IsText m f.0 event f.1 e, ih)
      judged m skip rest f e ih = rw (e, AreTexts) ih
      judged m raise rest f e ih = rw (e, AreTexts) tt

      answer :
          (p : Poll)
          → IsFromApi p
          → AreTexts (kept parse_time config b (answers poll k (suc n)))
          → AreTexts (kept parse_time config b (p ∷ answers poll k (suc n)))
      answer nothing f ih = tt
      answer error f ih = ih
      answer (message m) f ih =
          judged m (judge parse_time config b m) (answers poll k (suc n)) f refl ih

-- What the loop ends with has processed nothing.
abbrev IsIdle : End → Type 0
IsIdle (finished p f) = p ≡ 0
IsIdle stopped = Unit {0}
IsIdle broken = Unit {0}

module _ (scoring_fn : Fields → Option Fields) (w : World Event ReplayResult) where
  process_event_text : (e : Event) → IsText e → process_event scoring_fn e ≡ none
  unfolding process_event
  process_event_text e t = ground (arith, t.1)

  module _ (same : (e : Event) → w.process_event e ≡ process_event scoring_fn e) where
    replay_events_texts :
        (breaks : Bool) (i failures : ℕ) (events : List Event) (job : Job ReplayResult)
        → AreTexts events
        → let run = replay_events w breaks i 0 failures events job in
          (run.1.results ≡ job.results)
          × (run.1.processed_events ≡ job.processed_events)
          × IsIdle run.0
    unfolding replay_events handle_event
    replay_events_texts breaks i failures [] job h = ground arith
    replay_events_texts breaks i failures (e ∷ events) job h = ground (
      arith,
      same e,
      process_event_text e h.0,
      replay_events_texts breaks (i + 1) (failures + 1) events job h.1,
    )

    conclude_idle :
        (end : End) (job : Job ReplayResult)
        → IsIdle end
        → job.processed_events ≡ 0
        → ((conclude w end job).results ≡ job.results) × ((conclude w end job).processed_events ≡ 0)
    unfolding conclude
    conclude_idle (finished p f) job idle h = ground arith
    conclude_idle stopped job idle h = (refl, h)
    conclude_idle broken job idle h = (refl, h)

    -- If every message of the dead-letter topic is a document of the ingestion API, then a replay of
    -- the events that the adapter gives has no results and
    -- has processed nothing, whatever the range of times, the scoring function, the sink and a
    -- cancellation are.
    pub start_of_api_dlq :
        (parse_time : Parser) (config : Config) (b : Bounds) (poll : ℕ → Poll)
        → AreBounds parse_time config poll b
        → ((i : ℕ) → IsFromApi (poll i))
        → (n k count : ℕ) (run : Run) → poll (n + k) ≡ nothing
        → iter_events parse_time config poll n (suc k) ≡ some run
        → w.source ≡ some (record { event_count = count; events = run.events; breaks = run.raises })
        → let job = (start w new_job).1 in (job.results ≡ []) × (job.processed_events ≡ 0)
    unfolding start run_replay
    start_of_api_dlq parse_time config b poll bounds api n k count run h it source =
        let counting : Job ReplayResult = record new_job {
          status = running;
          total_events = count;
        } in
        let read = iter_events-kept parse_time config poll n k (n + k) b bounds refl h in
        let same_run : run.events
            ≡ take config.max_messages (kept parse_time config b (answers poll k n)) =
          ground (arith, it, read.1, read.2) in
        let texts : AreTexts run.events =
          rw same_run (
            take-AreTexts config.max_messages _ (kept-AreTexts parse_time config b poll api k n)) in
        let replay = replay_events_texts run.raises 0 0 run.events counting texts in
        let end = replay_events w run.raises 0 0 0 run.events counting in
        ground (arith, source, replay.0, conclude_idle end.0 end.1 replay.2 replay.1)
