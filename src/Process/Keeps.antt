-- ===== src/Process/Keeps.antt =====
-- What every handler of a call leaves alone: a predicate on the machine state that survives a
-- transition, the departure flag and, for a clearance request, a new code.
use xp_welly_llm_atc.Base.{
  String, Bool, true, false, none, some, ◌≡◌, refl, ◌⊎◌, inl, inr, arith, ap, Bool-cases, ◌==◌,
  string_eq, if◌then◌else◌,
}
use xp_welly_llm_atc.State.{AtcState, AtcResponse, DepartureType}
use xp_welly_llm_atc.Intent.{PilotIntent, PilotMessage, pilot_intent_eq}
use xp_welly_llm_atc.Machine.{AtcMachineState, transition_to, set_departure_type, set_ifr_squawk}
use xp_welly_llm_atc.Ground.{GroundContext, Session, Services}
use xp_welly_llm_atc.Ground.Vars.{assign_squawk, cache_departure, remember_crossing, touch_vars}
use xp_welly_llm_atc.Ground.Reply.{Outcome, ◌>>?◌, machine, answer}
use xp_welly_llm_atc.Ground.Guards.{taxis_in, taxi_in}

pub record IsKept (P : AtcMachineState → Type 0) (msg : PilotMessage) : Type 0 where
  pub moved :
      (next : AtcState) (reason : String) (g : AtcMachineState)
      → P g
      → P (transition_to next reason g)
  pub typed : (t : DepartureType) (g : AtcMachineState) → P g → P (set_departure_type t g)
  pub squawked :
      (sq : String) (g : AtcMachineState)
      → msg.intent ≡ PilotIntent.request_ifr_clearance
      → P g
      → P (set_ifr_squawk sq g)

module _ (sv : Services) (msg : PilotMessage) (ctx : GroundContext)
    (P : AtcMachineState → Type 0) where
  -- The handler that sends a landed aircraft to its stand has answered.
  abbrev pub SentToStand : Outcome → Type 0
  SentToStand o =
      (s : Session) × P (machine s) × (taxis_in sv msg ctx s ≡ true) × (o ≡ taxi_in sv msg ctx s)

  abbrev pub Kept : Outcome → Type 0
  Kept o = P (machine o.0) ⊎ SentToStand o

  taxi_in-some : (s : Session) → (r : AtcResponse) × ((taxi_in sv msg ctx s).1 ≡ some r)
  unfolding taxi_in
  taxi_in-some s = (_, refl)

  >>?-Kept :
      (o : Outcome) (k : Session → Outcome)
      → Kept o
      → ((s : Session) → P (machine s) → Kept (k s))
      → Kept (o >>? k)
  >>?-Kept (s, none) k (inl p) f = f s p
  >>?-Kept (s, none) k (inr (t, p, c, e)) f =
      let (r, q) = taxi_in-some t in absurd (cc (ap (λ o. o.1) e, q))
  >>?-Kept (s, some r) k h f = h

  -- A handler keeps `P`, but for the way to the stand.
  pub record Keeps (h : Session → Outcome) : Type 0 where
    pub apply : (s : Session) → P (machine s) → Kept (h s)

  pub keeps :
      (h : Session → Outcome) → ((s : Session) → P (machine s) → P (machine (h s).0)) → Keeps h
  keeps h f = record { apply = λ s p. inl (f s p) }

  pub and_then : {h k : Session → Outcome} → Keeps h → Keeps k → Keeps (λ s. h s >>? k)
  and_then {h} {k} f g = record { apply = λ s p. >>?-Kept (h s) k (f.apply s p) g.apply }

  pub if-P :
      (b : Bool) (x y : Outcome)
      → P (machine x.0)
      → P (machine y.0)
      → P (machine (if b then x else y).0)
  if-P true x y p q = p
  if-P false x y p q = q

  pub if-Kept : (b : Bool) (x y : Outcome) → Kept x → Kept y → Kept (if b then x else y)
  if-Kept true x y p q = p
  if-Kept false x y p q = q

  module _ (kept : IsKept P msg) where
    open kept use {moved, typed, squawked}

    assign_squawk-P : (s : Session) → P (machine s) → P (machine (assign_squawk sv msg s))
    unfolding assign_squawk
    assign_squawk-P s p = elim (Bool-cases (msg.intent == PilotIntent.request_ifr_clearance)) [
      | inl asks ↦ rw asks (squawked _ (machine s) (ground arith) p)
      | inr other ↦ rw other p
    ]

    cache_departure-P : (s : Session) → P (machine s) → P (machine (cache_departure sv ctx s))
    unfolding cache_departure
    cache_departure-P s p = ground arith

    remember_crossing-P :
        (s : Session) → P (machine s) → P (machine (remember_crossing sv msg ctx s))
    unfolding remember_crossing
    remember_crossing-P s p = ground arith

    pub touch_vars-P : (s : Session) → P (machine s) → P (machine (touch_vars sv msg ctx s))
    unfolding touch_vars
    touch_vars-P s p =
        remember_crossing-P (cache_departure sv ctx (assign_squawk sv msg s))
          (cache_departure-P (assign_squawk sv msg s) (assign_squawk-P s p))

    pub answer-P :
        (tmpl : String) (next : Session → AtcState) (s : Session)
        → P (machine s)
        → P (machine (answer sv msg ctx tmpl next s).0)
    unfolding answer
    answer-P tmpl next s p = touch_vars-P s p
