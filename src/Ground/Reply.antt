-- ===== src/Ground/Reply.antt =====
-- A handler takes the session and answers, or leaves the call to the next one.
use xp_welly_llm_atc.Base.{String, Bool, false, Option, none, some, string_eq, starts_with}
use xp_welly_llm_atc.State.{AtcState, AtcResponse}
use xp_welly_llm_atc.State.Names.{state_name}
use xp_welly_llm_atc.Intent.{PilotMessage}
use xp_welly_llm_atc.Machine.{AtcMachineState, transition_to}
use xp_welly_llm_atc.Templates.{fill}
use xp_welly_llm_atc.Ground.{GroundContext, Session, Services}
use xp_welly_llm_atc.Ground.Vars.{build_vars, set_world_g}

abbrev pub Outcome : Type 0
Outcome = Session × Option AtcResponse

infixl 5 ◌>>?◌
abbrev pub ◌>>?◌ : Outcome → (Session → Outcome) → Outcome
(s, none) >>? k = k s
(s, some r) >>? k = (s, some r)

abbrev pub pass : Session → Outcome
pass s = (s, none)

abbrev pub machine : Session → AtcMachineState
machine s = s.world.g

-- The name of the current state.
abbrev pub current_name : Session → String
current_name s = state_name (machine s).state (machine s).departure_type

abbrev pub is_ifr_name : String → Bool
is_ifr_name name = starts_with name "IFR/"

module _ (sv : Services) where
  abbrev pub on_machine : (AtcMachineState → AtcMachineState) → Session → Session
  on_machine f s = set_world_g sv (f (machine s)) s

  abbrev pub move_to : AtcState → String → Session → Session
  move_to next reason s = on_machine (transition_to next reason) s

  -- An answer by a template; `next_state` is what the source assigns to the response.
  unfoldable pub answer :
      PilotMessage → GroundContext → String → (Session → AtcState) → Session → Outcome
  unfolding build_vars
  answer msg ctx tmpl next s =
      let (s', vars) = build_vars sv msg ctx s in
      (s', some (record { text = fill tmpl vars; next_state = next s'; requires_readback = false }))

  abbrev pub same_state : Session → AtcState
  same_state s = (machine s).state
