-- ===== src/Agents/Update/Runs.antt =====
-- src/agents/update.c: the agent and the network in turn.
use upkit.Prelude.{ℕ, ◌<◌, ◌≤◌, ◌≡◌, ap, ◌⊎◌, inl, inr, List, [], ◌∷◌, some, true, arith}
use native.Mathlib.Decide.{dec_lt}
use upkit.Security.{Safestore}
use upkit.Network.Fsm.{Platform}
use upkit.Network.Request.{RequestCtx}
use upkit.Agents.Update.{AgentEvent, event_init, Connection, UpdateAgent, update_agent}
use upkit.Agents.Update.Phases.{phase, is_stop, Outcome}
use upkit.Agents.Update.Outcomes.{update_agent-Outcome}

-- An event of the phase is in the list.
abbrev pub Has : ℕ → List AgentEvent → Type 0
Has m [] = ⊥
Has m (e ∷ es) = (phase e ≡ m) ⊎ Has m es

-- The events, the last one first: each comes after one event at least of every phase before its own.
abbrev pub Ordered : List AgentEvent → Type 0
Ordered [] = Unit {0}
Ordered (e ∷ es) = ((m : ℕ) → 1 ≤ m → m < phase e → Has m es) × Ordered es

module _ {D O W R C : Type 0} (pl : Platform D O W R) (conn : Connection C)
    (safestore : Safestore) where
  -- Calls of the agent, with the events that they return. In between the network may do anything to
  -- the connection, the state machine and the error of the callback.
  pub data Run : UpdateAgent O W R C → List AgentEvent → UpdateAgent O W R C → Type 0 where
    begun : (a : UpdateAgent O W R C) → Run a [] a
    call :
        {a b c : UpdateAgent O W R C} {evs : List AgentEvent} (ev : AgentEvent)
        → Run a evs b
        → update_agent pl conn safestore b ≡ some (ev, c)
        → Run a (ev ∷ evs) c
    network :
        {a b : UpdateAgent O W R C} {evs : List AgentEvent} (reqc : RequestCtx O W R C)
        → Run a evs b
        → Run a evs (record b { reqc = reqc })

  record Invariant (evs : List AgentEvent) (b : UpdateAgent O W R C) : Type 0 where
    stands : is_stop b.current_event ≡ true
    behind : (m : ℕ) → 1 ≤ m → m ≤ phase b.current_event → Has m evs
    ordered : Ordered evs

  called-Invariant :
      (evs : List AgentEvent) (b c : UpdateAgent O W R C) (ev : AgentEvent)
      → Invariant evs b
      → Outcome (phase b.current_event) ev c
      → Invariant (ev ∷ evs) c
  called-Invariant evs b c ev i o = record {
    stands = o.stands;
    behind = λ m h k. elim o.stored_event [
      | inl e ↦ elim (dec_lt m (phase ev)) [
        | yes l ↦ inr (i.behind m h (omega (arith, o.no_phase_skipped)))
        | no l ↦ inl (omega (arith, ap phase e))
      ]
      | inr e ↦ inr (i.behind m h (omega (arith, e.1)))
    ];
    ordered = (λ m h k. i.behind m h (omega (arith, o.no_phase_skipped)), i.ordered);
  }

  run-Invariant :
      {a b : UpdateAgent O W R C} {evs : List AgentEvent}
      → a.current_event ≡ event_init
      → Run a evs b
      → Invariant evs b
  run-Invariant h (begun a) = record {
    stands = ap is_stop h;
    behind = λ m k l. absurd (omega (arith, ap phase h));
    ordered = tt;
  }
  run-Invariant h (call {b = b} {c = c} {evs = evs} ev r e) =
      let i = run-Invariant h r in
      called-Invariant evs b c ev i (update_agent-Outcome pl conn safestore b c ev i.stands e)
  run-Invariant h (network reqc r) =
      let i = run-Invariant h r in
      record { stands = i.stands; behind = i.behind; ordered = i.ordered }

  -- Whatever the network does between the calls: in a run from EVENT_INIT no phase is left out. Before
  -- EVENT_APPLY there has been an event of each of the three phases in which the agent waits for an
  -- update, makes the message, and receives.
  pub run-Ordered :
      {a b : UpdateAgent O W R C} {evs : List AgentEvent}
      → a.current_event ≡ event_init
      → Run a evs b
      → Ordered evs
  run-Ordered h r = (run-Invariant h r).ordered
