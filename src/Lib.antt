-- ===== src/Lib.antt =====
-- The verification library of xp_welly_llm_atc, an air traffic control plug-in for X-Plane.
--
-- The program hears the pilot through speech recognition, turns the text into an intent, lets a state
-- machine answer, and speaks the answer. What is modelled is the deterministic core behind the intent:
-- the dialogue state machine and the modules that it and the engine ask on every frame.
--
-- Parts and files
--   State, State/Names, Intent, Intent/Names: the states, the intents, the messages and their names
--     (src/atc/atc_state_machine.hpp, src/atc/intent_parser.cpp).
--   Machine, Machine/Transition: the record `AtcMachineState` of src/atc/atc_state_machine.cpp, one
--     field for each of its fields, its setters and `transition_to` with the log of the last eight states.
--   Readback, Readback/Merge, Readback/Retire: the queue of clearances to be read back (`rb_merge`,
--     `rb_clear`, `rb_remove_matched`, `rb_rebuild_cache`).
--   Readback/Verify, Readback/Verbatim: `check`, `matched_fields`, `fields_present` and the spoken corrections
--     of src/atc/readback_verifier.cpp, which `Readback.Verify.verifier` hands to the state machine.
--   Hooks, Hooks/Outstanding, Hooks/Verbatim, Hooks/Session: `apply_post_transition_hooks`, cut into one function for
--     each of its blocks, in the order of the source; Callsign: the callsign lock inside it.
--   Ground: the snapshot, the session and the services of src/atc/flows/ground_operations.cpp.
--     Ground/Vars, Ground/Text, Ground/Phonetic, Ground/Climb, Ground/Facility: `build_vars`, its
--     variables and its side effects; Ground/Squawk: `generate_squawk`; Ground/Early, Ground/Afis,
--     Ground/Frequency, Ground/Guards: its handlers, which take the session and answer or pass.
--   Process, Process/Lookup: `process` of src/atc/atc_state_machine.cpp, the handlers in its order, the
--     template lookup and the hooks. Process/Keeps, Process/Handlers, Process/Chain: the induction over
--     the chain of handlers, once for every predicate that its steps keep; Process/Sound,
--     Process/Frame, Process/Phase, Process/Code, Process/Refusals: what follows from it.
--   Templates, Vars: src/atc/atc_templates.cpp over a loaded document. Flow: src/atc/flows/pattern_flow.cpp,
--     crosscountry_flow.cpp and flow_coordinator.cpp. Airport: src/core/xplane_context.cpp.
--   World: the state machine with the statics around it, and `init`, `stop`, `reset`, `disregard` and
--     `check_airport_change` (src/atc/flows/crosscountry_flow.cpp).
--   Reminder: `consume_readback_reminder`. History: the walks over the log. Snapshot: `capture_snapshot`
--     and `restore_snapshot_if_gen`. Correction: `check_auto_correction`.
--   Invariant, Reachable, Reachable/Cuts, Reachable/Slots: the invariant, the calls that the flight loop
--     makes on the state machine as steps, `process` among them, and what holds of the worlds they reach.
--     Reachable/HookSlots, Reachable/CallSlots: the queue behind the hooks and behind a whole call.
--   Phase, Phase/Names, Phase/Detect, Phase/Guard: src/atc/flight_phase.cpp, the detection with its
--     hysteresis and the guards on intents.
--   Sector: src/atc/sector_picker.cpp. Shortcut: src/atc/route_shortcut.hpp.
--   Traffic: src/data/traffic_geometry.cpp; Traffic/Classifier: src/data/traffic_phase_classifier.cpp;
--     Traffic/Sequence: src/atc/landing_sequence.cpp; Traffic/Advisor: src/atc/traffic_advisor.cpp;
--     Traffic/Dialog: src/atc/traffic_dialog.cpp.
--   A folder below one of these files holds the theorems on it.
--   Base: Booleans, lists, signed integers and texts that all of them share. Examples: the theorems
--     at concrete values.
--
-- How the code is read
--   A static of the program is a field of a state that is passed on, and a function that changes it
--   returns the new state. `gen` wraps at 2^64, as its uint64_t does. A double or float is an integer in
--   thousandths of its unit, with exact arithmetic, so rounding is not modelled; floors and ceilings are
--   whole feet. A `std::map` is a list of pairs in the order of its keys, a `std::set` of fields a list
--   without repetition, and `std::sort` by a strict total order an insertion sort. Every loop is
--   structural recursion, so no fuel is needed. Log lines and the thread assertion are left out.
--   Parameters: the functions of the read-back verifier as the state
--   machine calls them (`Verifier`, which Readback/Verify fills), the searches of that verifier, made of
--   std::regex (`Searches`), distance, bearing and projection
--   (`Geometry`), the number formats of the C library (`Formats`), the settings, the tables of
--   flight_rules.json, the positions of airports, the document of templates, and what a handler asks of
--   the parts that are not modelled (`Services`: the controllers of a field, the altitudes of a
--   procedure, the runway on the way, `std::rand`). No hypothesis is made on them. A text that the source
--   prints into a fixed buffer is taken to fit.
--
-- Not modelled
--   The text rules of the parser, the normalisation and the searches of the read-back verifier,
--   src/atc/engine.cpp, src/atc/atc_session.cpp, the readers of src/data, the
--   speech and language backends, persistence and the user interface: these are large tables over JSON
--   and text, or calls of the simulator, of libraries and of devices.
pub mod Base
pub mod State
pub mod Intent
pub mod Context
pub mod Machine
pub mod Readback
pub mod Phase
pub mod World
pub mod Reminder
pub mod History
pub mod Snapshot
pub mod Correction
pub mod Callsign
pub mod Hooks
pub mod Invariant
pub mod Reachable
pub mod Examples
pub mod Sector
pub mod Traffic
pub mod Airport
pub mod Flow
pub mod Ground
pub mod Templates
pub mod Vars
pub mod Process
pub mod Shortcut
