-- ===== src/PipelineEvents/Repeats.antt =====
-- The log stays short, and an event that goes on is logged once.
use clear_core.Text.Laws.{length-drop}
use clear_core.PipelineEvents.{
  EventLog, Event, Entry, Kind, log_event, observe_event, observe_from, update_cycle, events_of,
  recall, key, continued, instr_or, entry_of,
}
use clear_core.Processor.{PipelineState}
use clear_core.Text.{Text, drop}
use clear_core.Prelude.{
  ℕ, suc, ◌+◌, ◌%◌, ◌^◌, true, Option, some, List, [], ◌∷◌, ◌≡◌, refl, ◌∙◌, arith, if_both,
  if◌then◌else◌, ◌==◌, length, not, ◌≤◌, ◌++◌, ◌-◌,
}

-- What is known of the cycle that a key was last seen in.
module _ (P : Option ℕ → Type 0) where
  -- It is known for each of these events that fired.
  abbrev Near : ℕ → List Event → List (ℕ × ℕ) → Type 0
  Near i [] recent = Unit
  Near i (e ∷ events) recent =
      (e.fired ≡ true → P (recall (key i e) recent)) × Near (suc i) events recent

  recall-insert :
      (k j cycle : ℕ) (recent : List (ℕ × ℕ))
      → P (some cycle)
      → P (recall k recent)
      → P (recall k ((j, cycle) ∷ recent))
  unfolding recall
  recall-insert k j cycle recent p q = if_both {A = Option ℕ} P (j == k) p q

  Near-insert :
      (j cycle : ℕ) (recent : List (ℕ × ℕ))
      → P (some cycle)
      → (i : ℕ) (events : List Event) → Near i events recent
      → Near i events ((j, cycle) ∷ recent)
  Near-insert j cycle recent p i [] n = tt
  Near-insert j cycle recent p i (e ∷ events) n = (
    λ f. recall-insert (key i e) j cycle recent p (n.0 f),
    Near-insert j cycle recent p (suc i) events n.1,
  )

recall-first : (k cycle : ℕ) (recent : List (ℕ × ℕ)) → recall k ((k, cycle) ∷ recent) ≡ some cycle
unfolding recall
recall-first k cycle recent = ground arith

-- The recent cycles after a round.
observe_event-recent :
    (i : ℕ) (e : Event) (cycle : ℕ) (log : EventLog)
    → (observe_event i e cycle log).recent
      ≡ (if e.fired then (key i e, cycle) ∷ log.recent else log.recent)
unfolding observe_event log_event
observe_event-recent i e cycle log = ground arith

-- A round that repeats an event of the cycle before, or of this one, logs nothing.
observe_event-repeated :
    (i : ℕ) (e : Event) (cycle : ℕ) (log : EventLog)
    → (e.fired ≡ true → continued (recall (key i e) log.recent) cycle ≡ true)
    → (observe_event i e cycle log).list ≡ log.list
unfolding observe_event
observe_event-repeated i e cycle log h = ground (arith, h)

-- A value that a first pass leaves: each event that fired was seen in that cycle.
abbrev SeenIn : ℕ → Option ℕ → Type 0
SeenIn cycle o = o ≡ some cycle

observe_from-seen :
    (i : ℕ) (events : List Event) (cycle : ℕ) (log : EventLog) (k : ℕ)
    → SeenIn cycle (recall k log.recent)
    → SeenIn cycle (recall k (observe_from i events cycle log).recent)
unfolding observe_from
observe_from-seen i [] cycle log k s = s
observe_from-seen i (e ∷ events) cycle log k s =
    observe_from-seen (suc i) events cycle (observe_event i e cycle log) k (
      rw (observe_event-recent i e cycle log) (
        if_both {A = List (ℕ × ℕ)} (λ r. SeenIn cycle (recall k r)) e.fired
          (recall-insert (SeenIn cycle) k (key i e) cycle log.recent refl s) s))

observe_from-Near :
    (i : ℕ) (events : List Event) (cycle : ℕ) (log : EventLog)
    → Near (SeenIn cycle) i events (observe_from i events cycle log).recent
unfolding observe_from
observe_from-Near i [] cycle log = tt
observe_from-Near i (e ∷ events) cycle log = (
  λ f.
      observe_from-seen (suc i) events cycle (observe_event i e cycle log) (key i e)
        (rw (observe_event-recent i e cycle log) (rw f (recall-first (key i e) cycle log.recent))),
  observe_from-Near (suc i) events cycle (observe_event i e cycle log),
)

-- Seen in this cycle or in the one before.
abbrev IsLate : ℕ → Option ℕ → Type 0
IsLate cycle o = continued o cycle ≡ true

continued-now : (cycle : ℕ) → continued (some cycle) cycle ≡ true
unfolding continued
continued-now cycle = ground arith

observe_from-list :
    (i : ℕ) (events : List Event) (cycle : ℕ) (log : EventLog)
    → Near (IsLate cycle) i events log.recent
    → (observe_from i events cycle log).list ≡ log.list
unfolding observe_from
observe_from-list i [] cycle log n = refl
observe_from-list i (e ∷ events) cycle log n =
    let kept : Near (IsLate cycle) (suc i) events (observe_event i e cycle log).recent =
      rw (observe_event-recent i e cycle log) (
        if_both {A = List (ℕ × ℕ)} (Near (IsLate cycle) (suc i) events) e.fired
          (Near-insert (IsLate cycle) (key i e) cycle log.recent (continued-now cycle) (suc i)
            events n.1)
          n.1) in
    observe_from-list (suc i) events cycle (observe_event i e cycle log) kept
    ∙ observe_event-repeated i e cycle log n.0

Near-map :
    (P Q : Option ℕ → Type 0)
    → ((o : Option ℕ) → P o → Q o)
    → (i : ℕ) (events : List Event) (recent : List (ℕ × ℕ)) → Near P i events recent
    → Near Q i events recent
Near-map P Q h i [] recent n = tt
Near-map P Q h i (e ∷ events) recent n =
    (λ f. h (recall (key i e) recent) (n.0 f), Near-map P Q h (suc i) events recent n.1)

-- An event that goes on is logged once: the cycle after one that was logged, with the same forwards,
-- stall and flush for the same instructions, adds no entry.
pub update_cycle-again :
    (ps : PipelineState) (log : EventLog)
    → (update_cycle (record ps { cycle = ps.cycle + 1 }) (update_cycle ps log)).list
      ≡ (update_cycle ps log).list
unfolding update_cycle events_of continued
update_cycle-again ps log =
    let now = ps.cycle % 2 ^ 64 in
    let next = (ps.cycle + 1) % 2 ^ 64 in
    observe_from-list 0 (events_of ps) next (update_cycle ps log) (
      Near-map (SeenIn now) (IsLate next) (λ o s. rw s (ground arith)) 0 (events_of ps)
        (update_cycle ps log).recent (observe_from-Near 0 (events_of ps) now log))

-- The list has at most 500 entries, as many as the label says.
abbrev IsShort : EventLog → Type 0
IsShort log = (length log.list ≤ 500) × (log.count ≡ length log.list)

newest : (all : List Entry) → length (drop all (length all - 500)) ≤ 500
newest all = omega (arith, length-drop all (length all - 500))

log_event-IsShort :
    (kind : Kind) (cycle : ℕ) (text : Text) (log : EventLog)
    → IsShort (log_event kind cycle text log)
unfolding log_event
log_event-IsShort kind cycle text log = (newest (log.list ++ entry_of kind cycle text ∷ []), refl)

observe_from-IsShort :
    (i : ℕ) (events : List Event) (cycle : ℕ) (log : EventLog)
    → IsShort log
    → IsShort (observe_from i events cycle log)
unfolding observe_from observe_event
observe_from-IsShort i [] cycle log s = s
observe_from-IsShort i (e ∷ events) cycle log s =
    let log' : EventLog = record log { recent = (key i e, cycle) ∷ log.recent } in
    let text = e.before ++ (instr_or e.stage e.fallback ++ e.after) in
    observe_from-IsShort (suc i) events cycle (observe_event i e cycle log) (
      if_both {A = EventLog} IsShort (not e.fired) {x = log} s (
        if_both {A = EventLog} IsShort (continued (recall (key i e) log.recent) cycle) {x = log'} s
          (log_event-IsShort e.kind cycle text log')))

pub update_cycle-IsShort :
    (ps : PipelineState) (log : EventLog) → IsShort log → IsShort (update_cycle ps log)
unfolding update_cycle
update_cycle-IsShort ps log = observe_from-IsShort 0 (events_of ps) (ps.cycle % 2 ^ 64) log
